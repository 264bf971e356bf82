-- ===== src/Config/Loader/Readers.antt =====
-- The JSON value that the loader reads, and the readers of the sections, src/config/ConfigLoader.cpp.
use mathlib.Core.Option
use dnp3_bridge.Base.{ℕ, String, Bool, Option, none, some, List, [], ◌∷◌, ◌++◌, if◌then◌else◌}
use dnp3_bridge.Points.Config.{PointConfig, PointDatabaseConfig}
use dnp3_bridge.Config.{EventBufferConfig, UnsolicitedConfig}

-- A JSON value: contains, operator[] with a key, operator[] with an index, iteration, and get<T>().
-- What throws is `none`.
pub record Json (D : Type 0) : Type 1 where
  pub J : Type 0
  pub contains : J → String → Bool
  pub member : J → String → J
  pub element : J → ℕ → Option J
  pub elements : J → List J
  pub get_string : J → Option String
  pub get_uint16 : J → Option ℕ
  pub get_uint32 : J → Option ℕ
  pub get_bool : J → Option Bool
  pub get_double : J → Option D

-- Statements one after another, up to the first that throws.
unfoldable pub in_order {ℓ} : {C : Type ℓ} → List (C → Option C) → C → Option C
in_order [] c = some c
in_order (s ∷ statements) c = elim (s c) [ none ↦ none | some c' ↦ in_order statements c' ]

module _ {D : Type 0} (json : Json D) where
  open json use {
    J, contains, member, element, elements, get_string, get_uint16, get_uint32, get_bool,
    get_double,
  }

  -- if (j.contains(key)) c.x = j[key].get<V>();
  unfoldable pub field : {C V : Type 0} → String → (J → Option V) → (V → C → C) → J → C → Option C
  field key get set j c =
      if contains j key then Option.map (λ v. set v c) (get (member j key)) else some c

  -- if (j.contains(key)) parse(j[key], c.x);
  unfoldable pub part :
      {C X : Type 0} → String → (J → X → Option X) → (C → X) → (X → C → C) → J → C → Option C
  part key parse get set j c =
      if contains j key then Option.map (λ x. set x c) (parse (member j key) (get c)) else some c

  unfoldable pub parse_range : J → PointConfig D → Option (PointConfig D)
  unfolding field
  parse_range entry pc =
      if contains entry "range"
      then (let range = member entry "range" in
          elim (element range 0) [
            | none ↦ none
            | some first ↦ elim (get_uint16 first) [
              | none ↦ none
              | some start ↦ elim (element range 1) [
                | none ↦ none
                | some last ↦
                    Option.map (λ end. record pc { start = start; end = end }) (get_uint16 last)
              ]
            ]
          ])
      else field "index" get_uint16 (λ i pc. record pc { start = i; end = i }) entry pc

  -- The statements of the loop's body.
  abbrev pub point_statements : J → List (PointConfig D → Option (PointConfig D))
  point_statements entry =
      parse_range entry
      ∷ field "class" get_string (λ s pc. record pc { event_class = s }) entry
      ∷ field "deadband" get_double (λ x pc. record pc { deadband = some x }) entry
      ∷ field "static_variation" get_string (λ s pc. record pc { static_variation = s }) entry
      ∷ field "event_variation" get_string (λ s pc. record pc { event_variation = s }) entry
      ∷ []

  unfoldable pub parse_point_config : J → Option (PointConfig D)
  unfolding in_order
  parse_point_config entry = in_order (point_statements entry) (record {
    start = 0;
    end = 0;
    event_class = "";
    deadband = none;
    static_variation = "";
    event_variation = "";
  })

  unfoldable pub parse_point_configs : List J → List (PointConfig D) → Option (List (PointConfig D))
  unfolding parse_point_config
  parse_point_configs [] out = some out
  parse_point_configs (entry ∷ arr) out = elim (parse_point_config entry) [
    | none ↦ none
    | some pc ↦ parse_point_configs arr (out ++ pc ∷ [])
  ]

  abbrev pub buffer_statements : J → List (EventBufferConfig → Option EventBufferConfig)
  buffer_statements j =
      field "max_binary_events" get_uint16 (λ n eb. record eb { max_binary_events = n }) j
      ∷ field "max_double_binary_events" get_uint16
          (λ n eb. record eb { max_double_binary_events = n }) j
      ∷ field "max_analog_events" get_uint16 (λ n eb. record eb { max_analog_events = n }) j
      ∷ field "max_counter_events" get_uint16 (λ n eb. record eb { max_counter_events = n }) j
      ∷ field "max_frozen_counter_events" get_uint16
          (λ n eb. record eb { max_frozen_counter_events = n }) j
      ∷ field "max_binary_output_status_events" get_uint16
          (λ n eb. record eb { max_binary_output_status_events = n }) j
      ∷ field "max_analog_output_status_events" get_uint16
          (λ n eb. record eb { max_analog_output_status_events = n }) j
      ∷ field "max_octet_string_events" get_uint16
          (λ n eb. record eb { max_octet_string_events = n }) j
      ∷ []

  unfoldable pub parse_event_buffer : J → EventBufferConfig → Option EventBufferConfig
  unfolding in_order
  parse_event_buffer j = in_order (buffer_statements j)

  unfoldable pub parse_strings : List J → Option (List String)
  parse_strings [] = some []
  parse_strings (c ∷ cs) = elim (get_string c) [
    | none ↦ none
    | some s ↦ Option.map (λ rest. s ∷ rest) (parse_strings cs)
  ]

  unfoldable pub parse_unsolicited : J → UnsolicitedConfig → Option UnsolicitedConfig
  unfolding in_order field parse_strings
  parse_unsolicited j = in_order (
      field "enabled" get_bool (λ b us. record us { enabled = b }) j
      ∷ field "class_mask" (λ cs. parse_strings (elements cs))
          (λ mask us. record us { class_mask = mask }) j
      ∷ [])

  abbrev pub parse_section : J → List (PointConfig D) → Option (List (PointConfig D))
  parse_section arr out = parse_point_configs (elements arr) out

  abbrev pub database_statements : J → List (PointDatabaseConfig D → Option (PointDatabaseConfig D))
  database_statements j =
      part "binary_input" parse_section (λ db. db.binary_input)
        (λ x db. record db { binary_input = x }) j
      ∷ part "binary_output_status" parse_section (λ db. db.binary_output_status)
          (λ x db. record db { binary_output_status = x }) j
      ∷ part "analog_input" parse_section (λ db. db.analog_input)
          (λ x db. record db { analog_input = x }) j
      ∷ part "analog_output_status" parse_section (λ db. db.analog_output_status)
          (λ x db. record db { analog_output_status = x }) j
      ∷ []

  unfoldable pub parse_point_database : J → PointDatabaseConfig D → Option (PointDatabaseConfig D)
  unfolding in_order
  parse_point_database j = in_order (database_statements j)
