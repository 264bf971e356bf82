-- ===== src/Config/Loader/Outer.antt =====
-- What the statements of load_from_json leave in the outer settings.
use dnp3_bridge.Base.{
  ◌≡◌, refl, String, Option, none, some, Option-cases, Bool-cases, inl, inr, List, [], ◌∷◌,
  if◌then◌else◌, or_else, arith, sym, ap,
}
use dnp3_bridge.Points.Config.{PointDatabaseConfig}
use dnp3_bridge.Config.{EventBufferConfig, UnsolicitedConfig, AppConfig}
use dnp3_bridge.Config.Loader.{
  Json, in_order, field, part, read_settings, settings_from, parse_event_buffer, parse_unsolicited,
  parse_point_database,
}

-- Statements that lead from one object to another without a throw.
pub record Reaches {C : Type 0} (statements : List (C → Option C)) (c c' : C) : Type 0 where
  pub by : in_order statements c ≡ some c'

end-Reaches : {C : Type 0} {c c' : C} → Reaches [] c c' → c ≡ c'
unfolding in_order
end-Reaches {c = c} h = ap (λ o. or_else o c) h.by

module _ {D : Type 0} (json : Json D) where
  open json use {J, contains, member, get_string, get_uint16, get_uint32}

  -- What the file says of a key.
  abbrev pub stored : {V : Type 0} → String → (J → Option V) → J → Option V
  stored key get j = if contains j key then get (member j key) else none

  module _ {C V : Type 0} (key : String) (get : J → Option V) (set : V → C → C) (j : J)
      (proj : C → V) where
    field-Reaches :
        ((c : C) → set (proj c) c ≡ c)
        → {rest : List (C → Option C)} {c c' : C} → Reaches (field json key get set j ∷ rest) c c'
        → Reaches rest (set (or_else (stored key get j) (proj c)) c) c'
    unfolding in_order field
    field-Reaches keeps {c = c} r =
        let h = r.by in
        elim (Bool-cases (contains j key)) [
          | inl there ↦ elim (Option-cases (get (member j key))) [
            | inl e ↦ absurd (ground arith)
            | inr (v, e) ↦ record { by = ground arith }
          ]
          | inr missing ↦ record { by = ground (arith, keeps c) }
        ]

  module _ {C X : Type 0} (key : String) (parse : J → X → Option X) (get : C → X) (set : X → C → C)
      (j : J) where
    part-Reaches :
        ((c : C) → set (get c) c ≡ c)
        → {rest : List (C → Option C)} {c c' : C}
        → Reaches (part json key parse get set j ∷ rest) c c'
        → (x : X) × Reaches rest (set x c) c'
    unfolding in_order part
    part-Reaches keeps {c = c} r =
        let h = r.by in
        elim (Bool-cases (contains j key)) [
          | inl there ↦ elim (Option-cases (parse (member j key) (get c))) [
            | inl e ↦ absurd (ground arith)
            | inr (x, e) ↦ (x, record { by = ground arith })
          ]
          | inr missing ↦ (get c, record { by = ground (arith, keeps c) })
        ]

  -- The object after the outer settings, and the statements behind them.
  abbrev pub outer : J → AppConfig D → AppConfig D
  outer j c = record c {
    grpc_listen_address = or_else (stored "grpc_listen_address" get_string j) c.grpc_listen_address;
    dnp3_channel_host = or_else (stored "dnp3_channel_host" get_string j) c.dnp3_channel_host;
    dnp3_channel_port = or_else (stored "dnp3_channel_port" get_uint16 j) c.dnp3_channel_port;
    dnp3_local_address = or_else (stored "dnp3_local_address" get_uint16 j) c.dnp3_local_address;
    dnp3_remote_address = or_else (stored "dnp3_remote_address" get_uint16 j) c.dnp3_remote_address;
    log_level = or_else (stored "log_level" get_string j) c.log_level;
    log_file = or_else (stored "log_file" get_string j) c.log_file;
    log_max_size_mb = or_else (stored "log_max_size_mb" get_uint32 j) c.log_max_size_mb;
    log_max_files = or_else (stored "log_max_files" get_uint32 j) c.log_max_files;
    command_timeout_ms = or_else (stored "command_timeout_ms" get_uint32 j) c.command_timeout_ms;
    command_mode = or_else (stored "command_mode" get_string j) c.command_mode;
  }

  abbrev pub parts : J → List (AppConfig D → Option (AppConfig D))
  parts j =
      part json "event_buffer" (parse_event_buffer json) (λ c. c.event_buffer)
        (λ x c. record c { event_buffer = x }) j
      ∷ part json "unsolicited" (parse_unsolicited json) (λ c. c.unsolicited)
          (λ x c. record c { unsolicited = x }) j
      ∷ part json "point_database" (parse_point_database json) (λ c. c.point_database)
          (λ x c. record c { point_database = x }) j
      ∷ []

  pub outer-Reaches :
      (j : J) (c c' : AppConfig D)
      → read_settings json j c ≡ some c'
      → Reaches (parts j) (outer j c) c'
  unfolding read_settings
  outer-Reaches j c c' h =
      let h : Reaches (settings_from json j) c c' = record { by = h } in
      let h = field-Reaches _ _ _ _ (λ c. c.grpc_listen_address) (λ c. refl) h in
      let h = field-Reaches _ _ _ _ (λ c. c.dnp3_channel_host) (λ c. refl) h in
      let h = field-Reaches _ _ _ _ (λ c. c.dnp3_channel_port) (λ c. refl) h in
      let h = field-Reaches _ _ _ _ (λ c. c.dnp3_local_address) (λ c. refl) h in
      let h = field-Reaches _ _ _ _ (λ c. c.dnp3_remote_address) (λ c. refl) h in
      let h = field-Reaches _ _ _ _ (λ c. c.log_level) (λ c. refl) h in
      let h = field-Reaches _ _ _ _ (λ c. c.log_file) (λ c. refl) h in
      let h = field-Reaches _ _ _ _ (λ c. c.log_max_size_mb) (λ c. refl) h in
      let h = field-Reaches _ _ _ _ (λ c. c.log_max_files) (λ c. refl) h in
      let h = field-Reaches _ _ _ _ (λ c. c.command_timeout_ms) (λ c. refl) h in
      let h = field-Reaches _ _ _ _ (λ c. c.command_mode) (λ c. refl) h in h

  -- The same outer settings.
  pub record IsAlike (c c' : AppConfig D) : Type 0 where
    pub grpc_listen_address : c'.grpc_listen_address ≡ c.grpc_listen_address
    pub dnp3_channel_host : c'.dnp3_channel_host ≡ c.dnp3_channel_host
    pub dnp3_channel_port : c'.dnp3_channel_port ≡ c.dnp3_channel_port
    pub dnp3_local_address : c'.dnp3_local_address ≡ c.dnp3_local_address
    pub dnp3_remote_address : c'.dnp3_remote_address ≡ c.dnp3_remote_address
    pub log_level : c'.log_level ≡ c.log_level
    pub log_file : c'.log_file ≡ c.log_file
    pub log_max_size_mb : c'.log_max_size_mb ≡ c.log_max_size_mb
    pub log_max_files : c'.log_max_files ≡ c.log_max_files
    pub command_timeout_ms : c'.command_timeout_ms ≡ c.command_timeout_ms
    pub command_mode : c'.command_mode ≡ c.command_mode

  IsAlike-parts :
      (c c' : AppConfig D) (eb : EventBufferConfig) (us : UnsolicitedConfig)
      (db : PointDatabaseConfig D)
      → record c { event_buffer = eb; unsolicited = us; point_database = db } ≡ c'
      → IsAlike c c'
  IsAlike-parts c c' eb us db e = record {
    grpc_listen_address = sym (ap (λ c. c.grpc_listen_address) e);
    dnp3_channel_host = sym (ap (λ c. c.dnp3_channel_host) e);
    dnp3_channel_port = sym (ap (λ c. c.dnp3_channel_port) e);
    dnp3_local_address = sym (ap (λ c. c.dnp3_local_address) e);
    dnp3_remote_address = sym (ap (λ c. c.dnp3_remote_address) e);
    log_level = sym (ap (λ c. c.log_level) e);
    log_file = sym (ap (λ c. c.log_file) e);
    log_max_size_mb = sym (ap (λ c. c.log_max_size_mb) e);
    log_max_files = sym (ap (λ c. c.log_max_files) e);
    command_timeout_ms = sym (ap (λ c. c.command_timeout_ms) e);
    command_mode = sym (ap (λ c. c.command_mode) e);
  }

  pub parts-IsAlike : (j : J) (c c' : AppConfig D) → Reaches (parts j) c c' → IsAlike c c'
  parts-IsAlike j c c' h =
      let (eb, h) = part-Reaches _ _ _ _ _ (λ c. refl) h in
      let (us, h) = part-Reaches _ _ _ _ _ (λ c. refl) h in
      let (db, h) = part-Reaches _ _ _ _ _ (λ c. refl) h in
      IsAlike-parts c c' eb us db (end-Reaches h)
