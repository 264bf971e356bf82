-- ===== src/Config/Loader/Sections.antt =====
-- The numbers of the sections of a configuration file, src/config/ConfigLoader.cpp.
use dnp3_bridge.Base.{
  ℕ, ◌^◌, ◌<◌, ◌≡◌, String, some, Option-cases, Bool-cases, inl, inr, List, [], ◌∷◌, ◌++◌, All,
  All-append, ◌▸◌, arith,
}
use dnp3_bridge.Points.Config.{PointConfig, PointDatabaseConfig}
use dnp3_bridge.Points.Database.Settings.{FitsU16}
use dnp3_bridge.Config.{EventBufferConfig}
use dnp3_bridge.Config.Loader.{
  Json, field, part, point_statements, buffer_statements, database_statements, parse_section,
  parse_range, parse_point_config, parse_point_configs, parse_event_buffer, parse_point_database,
}
use dnp3_bridge.Config.Loader.Keeps.{
  IsTypedBuffer, IsTypedDatabase, Keeps, in_order-Keeps, field-Keeps, part-Keeps, IsSized,
}

module _ {D : Type 0} (json : Json D) where
  open json use {J, contains, member, elements, get_uint16, get_uint32}

  module _ (sized : IsSized json) where
    parse_range-Keeps : (entry : J) → Keeps FitsU16 (parse_range json entry)
    unfolding parse_range field
    parse_range-Keeps entry pc pc' p h =
        let range = member entry "range" in
        elim (Bool-cases (contains entry "range")) [
          | inr single ↦
              field-Keeps json FitsU16 "index" entry get_uint16
                (λ i pc. record pc { start = i; end = i })
                (λ i c e k. (sized.0 _ i e, sized.0 _ i e)) pc pc' p (ground arith)
          | inl two ↦ elim (Option-cases (json.element range 0)) [
            | inl e ↦ absurd (ground arith)
            | inr (first, e) ↦ elim (Option-cases (get_uint16 first)) [
              | inl e₁ ↦ absurd (ground arith)
              | inr (start, e₁) ↦ elim (Option-cases (json.element range 1)) [
                | inl e₂ ↦ absurd (ground arith)
                | inr (last, e₂) ↦ elim (Option-cases (get_uint16 last)) [
                  | inl e₃ ↦ absurd (ground arith)
                  | inr (end, e₃) ↦ ground (arith, sized.0 first start e₁, sized.0 last end e₃)
                ]
              ]
            ]
          ]
        ]

    parse_point_config-FitsU16 :
        (entry : J) (pc : PointConfig D) → parse_point_config json entry ≡ some pc → FitsU16 pc
    unfolding parse_point_config
    parse_point_config-FitsU16 entry pc h =
        in_order-Keeps FitsU16 (point_statements json entry)
          (parse_range-Keeps entry
            ▸ field-Keeps json FitsU16 _ entry _ _ (λ v c e p. p)
            ▸ field-Keeps json FitsU16 _ entry _ _ (λ v c e p. p)
            ▸ field-Keeps json FitsU16 _ entry _ _ (λ v c e p. p)
            ▸ field-Keeps json FitsU16 _ entry _ _ (λ v c e p. p)
            ▸ tt)
          _ pc (omega arith, omega arith) h

    parse_point_configs-FitsU16 :
        (arr : List J) (out result : List (PointConfig D))
        → All FitsU16 out
        → parse_point_configs json arr out ≡ some result
        → All FitsU16 result
    unfolding parse_point_configs
    parse_point_configs-FitsU16 [] out result p h = ground (arith, p)
    parse_point_configs-FitsU16 (entry ∷ arr) out result p h =
        elim (Option-cases (parse_point_config json entry)) [
          | inl e ↦ absurd (ground arith)
          | inr (pc, e) ↦
              parse_point_configs-FitsU16 arr (out ++ pc ∷ []) result
                (All-append FitsU16 out (pc ∷ []) p (parse_point_config-FitsU16 entry pc e, tt))
                (ground arith)
        ]

    module _ (j : J) where
      buffer-Keeps :
          (key : String) (set : ℕ → EventBufferConfig → EventBufferConfig)
          → ((n : ℕ) (c : EventBufferConfig)
              → n < 2 ^ 16
              → IsTypedBuffer c
              → IsTypedBuffer (set n c))
          → Keeps IsTypedBuffer (field json key get_uint16 set j)
      buffer-Keeps key set keep =
          field-Keeps json IsTypedBuffer key j get_uint16 set
            (λ n c e p. keep n c (sized.0 _ n e) p)

      pub parse_event_buffer-IsTyped : Keeps IsTypedBuffer (parse_event_buffer json j)
      unfolding parse_event_buffer
      parse_event_buffer-IsTyped = in_order-Keeps IsTypedBuffer (buffer_statements json j) (
          buffer-Keeps _ _ (λ n c h p. ground arith)
          ▸ buffer-Keeps _ _ (λ n c h p. ground arith)
          ▸ buffer-Keeps _ _ (λ n c h p. ground arith)
          ▸ buffer-Keeps _ _ (λ n c h p. ground arith)
          ▸ buffer-Keeps _ _ (λ n c h p. ground arith)
          ▸ buffer-Keeps _ _ (λ n c h p. ground arith)
          ▸ buffer-Keeps _ _ (λ n c h p. ground arith)
          ▸ buffer-Keeps _ _ (λ n c h p. ground arith)
          ▸ tt)

      section-Keeps :
          (key : String) (get : PointDatabaseConfig D → List (PointConfig D))
          (set : List (PointConfig D) → PointDatabaseConfig D → PointDatabaseConfig D)
          → ((c : PointDatabaseConfig D) → IsTypedDatabase c → All FitsU16 (get c))
          → ((x : List (PointConfig D)) (c : PointDatabaseConfig D)
              → All FitsU16 x
              → IsTypedDatabase c
              → IsTypedDatabase (set x c))
          → Keeps IsTypedDatabase (part json key (parse_section json) get set j)
      section-Keeps key get set reads keep =
          part-Keeps json IsTypedDatabase key j (parse_section json) get set
            (λ x c e p. keep x c (parse_point_configs-FitsU16 _ (get c) x (reads c p) e) p)

      pub parse_point_database-IsTyped : Keeps IsTypedDatabase (parse_point_database json j)
      unfolding parse_point_database
      parse_point_database-IsTyped = in_order-Keeps IsTypedDatabase (database_statements json j) (
          section-Keeps _ _ _ (λ c p. p.binary_input) (λ x c h p. ground arith)
          ▸ section-Keeps _ _ _ (λ c p. p.binary_output) (λ x c h p. ground arith)
          ▸ section-Keeps _ _ _ (λ c p. p.analog_input) (λ x c h p. ground arith)
          ▸ section-Keeps _ _ _ (λ c p. p.analog_output) (λ x c h p. ground arith)
          ▸ tt)
