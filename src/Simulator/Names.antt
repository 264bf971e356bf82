-- ===== src/Simulator/Names.antt =====
-- tools/dnp3-master-sim/PointNames.hpp.
pub mod Default
use dnp3_bridge.Base.{ℕ, String, List, [], ◌∷◌, get_elem?, or_else}

abbrev pub binary_input_names : List String
binary_input_names =
    "Equipamento Energizado" ∷ "Equipamento Operando" ∷ "Alarme" ∷ "Operacao Local/Remoto"
    ∷ "Botoeira de Emergencia" ∷ "Status Desequilibrio" ∷ "Status Reativo"
    ∷ "Status Suporte de Tensao" ∷ "Status Regulacao de Tensao" ∷ "Status Compensacao Harmonica"
    ∷ "Erro de IGBT" ∷ []

abbrev pub binary_output_names : List String
binary_output_names =
    "Conectar Equipamento" ∷ "Desconectar Equipamento" ∷ "Reset Protecao" ∷ "Emergencia"
    ∷ "Ativa Desequilibrio" ∷ "Desativa Desequilibrio" ∷ "Ativa Suporte de Tensao"
    ∷ "Desativa Suporte de Tensao" ∷ "Ativa Regulacao de Tensao" ∷ "Desativa Regulacao de Tensao"
    ∷ "Ativa Compensacao Harmonica" ∷ "Desativa Compensacao Harmonica" ∷ "Compensa Harmonica 3"
    ∷ "Compensa Harmonica 5" ∷ "Compensa Harmonica 7" ∷ "Compensa Harmonica 9"
    ∷ "Compensa Harmonica 11" ∷ "Compensacao Harmonica Completa" ∷ "Aciona Ventilador Painel"
    ∷ "Aciona Ventilador Ponte" ∷ []

abbrev pub analog_input_names : List String
analog_input_names =
    "Tensao Fase A" ∷ "Tensao Fase B" ∷ "Tensao Fase C" ∷ "Corrente Fase A" ∷ "Corrente Fase B"
    ∷ "Corrente Fase C" ∷ "Corrente Neutro" ∷ "THD Tensao Fase A" ∷ "THD Tensao Fase B"
    ∷ "THD Tensao Fase C" ∷ "THD Corrente Fase A" ∷ "THD Corrente Fase B" ∷ "THD Corrente Fase C"
    ∷ "Desequilibrio Negativo" ∷ "Desequilibrio Zero" ∷ "Tensao Link CC" ∷ "Temperatura Ponte"
    ∷ "Estado Atual de Operacao" ∷ "Modo Reativo" ∷ "Modo Harmonicos" ∷ "Codigo de Falta" ∷ []

abbrev pub analog_output_names : List String
analog_output_names =
    "Ref. Regulacao de Tensao" ∷ "Limite Corrente Deseq. Neg." ∷ "Limite Corrente Deseq. Zero"
    ∷ "Limite Corrente Reativo" ∷ "Limite Corrente Harmonico" ∷ []

unfoldable pub point_name : List String → ℕ → String
point_name table index = or_else (get_elem? table index) "unknown"
