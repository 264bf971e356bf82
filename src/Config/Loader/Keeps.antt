-- ===== src/Config/Loader/Keeps.antt =====
-- Properties that the statements of a reader keep, src/config/ConfigLoader.cpp.
use dnp3_bridge.Base.{
  ℕ, ◌^◌, ◌<◌, ◌≡◌, String, Option, some, Option-cases, Bool-cases, inl, inr, List, [], ◌∷◌, All,
  arith,
}
use dnp3_bridge.Points.Config.{PointDatabaseConfig}
use dnp3_bridge.Points.Database.Settings.{FitsU16}
use dnp3_bridge.Config.{EventBufferConfig, AppConfig}
use dnp3_bridge.Config.Loader.{Json, in_order, field, part}

-- Each number fits the type of its member.
pub record IsTypedBuffer (eb : EventBufferConfig) : Type 0 where
  pub binary : eb.max_binary_events < 2 ^ 16
  pub double_binary : eb.max_double_binary_events < 2 ^ 16
  pub analog : eb.max_analog_events < 2 ^ 16
  pub counter : eb.max_counter_events < 2 ^ 16
  pub frozen_counter : eb.max_frozen_counter_events < 2 ^ 16
  pub binary_output : eb.max_binary_output_status_events < 2 ^ 16
  pub analog_output : eb.max_analog_output_status_events < 2 ^ 16
  pub octet_string : eb.max_octet_string_events < 2 ^ 16

pub record IsTypedDatabase {D : Type 0} (db : PointDatabaseConfig D) : Type 0 where
  pub binary_input : All FitsU16 db.binary_input
  pub binary_output : All FitsU16 db.binary_output_status
  pub analog_input : All FitsU16 db.analog_input
  pub analog_output : All FitsU16 db.analog_output_status

pub record IsTyped {D : Type 0} (c : AppConfig D) : Type 0 where
  pub port : c.dnp3_channel_port < 2 ^ 16
  pub local_address : c.dnp3_local_address < 2 ^ 16
  pub remote_address : c.dnp3_remote_address < 2 ^ 16
  pub log_size : c.log_max_size_mb < 2 ^ 32
  pub log_files : c.log_max_files < 2 ^ 32
  pub timeout : c.command_timeout_ms < 2 ^ 32
  pub buffer : IsTypedBuffer c.event_buffer
  pub database : IsTypedDatabase c.point_database

-- A statement that keeps a property of the object.
abbrev pub Keeps : {C : Type 0} → (C → Type 0) → (C → Option C) → Type 0
Keeps {C} P s = (c c' : C) → P c → s c ≡ some c' → P c'

pub in_order-Keeps :
    {C : Type 0} (P : C → Type 0) (statements : List (C → Option C))
    → All (Keeps P) statements
    → Keeps P (in_order statements)
unfolding in_order
in_order-Keeps P [] keep c c' p h = ground (arith, p)
in_order-Keeps P (s ∷ statements) keep c c' p h = elim (Option-cases (s c)) [
  | inl e ↦ absurd (ground arith)
  | inr (c₁, e) ↦ in_order-Keeps P statements keep.1 c₁ c' (keep.0 c c₁ p e) (ground arith)
]

module _ {D : Type 0} (json : Json D) where
  open json use {J, contains, member, elements, get_uint16, get_uint32}

  module _ {C : Type 0} (P : C → Type 0) (key : String) (j : J) where
    pub field-Keeps :
        {V : Type 0} (get : J → Option V) (set : V → C → C)
        → ((v : V) (c : C) → get (member j key) ≡ some v → P c → P (set v c))
        → Keeps P (field json key get set j)
    unfolding field
    field-Keeps get set keep c c' p h = elim (Bool-cases (contains j key)) [
      | inl there ↦ elim (Option-cases (get (member j key))) [
        | inl e ↦ absurd (ground arith)
        | inr (v, e) ↦ ground (arith, keep v c e p)
      ]
      | inr missing ↦ ground (arith, p)
    ]

    pub part-Keeps :
        {X : Type 0} (parse : J → X → Option X) (get : C → X) (set : X → C → C)
        → ((x : X) (c : C) → parse (member j key) (get c) ≡ some x → P c → P (set x c))
        → Keeps P (part json key parse get set j)
    unfolding part
    part-Keeps parse get set keep c c' p h = elim (Bool-cases (contains j key)) [
      | inl there ↦ elim (Option-cases (parse (member j key) (get c))) [
        | inl e ↦ absurd (ground arith)
        | inr (x, e) ↦ ground (arith, keep x c e p)
      ]
      | inr missing ↦ ground (arith, p)
    ]

  -- get<uint16_t>() and get<uint32_t>() return values of their types.
  abbrev pub IsSized : Type 0
  IsSized =
      ((j : J) (n : ℕ) → get_uint16 j ≡ some n → n < 2 ^ 16)
      × ((j : J) (n : ℕ) → get_uint32 j ≡ some n → n < 2 ^ 32)
