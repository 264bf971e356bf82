-- ===== src/Service/Updates.antt =====
-- What the service's handlers do to the bridge and the dispatcher, and from there to the outstation.
use mathlib.Core.List.{map-append}
use dnp3_bridge.Base.{
  ℕ, ◌+◌, ◌*◌, ◌^◌, ◌%◌, ◌≡◌, refl, sym, ap, ◌∙◌, true, false, none, some, List, [], ◌∷◌, ◌++◌,
  append-nil, map, arith, find, find-erase, beq_refl, nat_eq, u16,
}
use dnp3_bridge.Double.{Double}
use dnp3_bridge.Outstation.Flags.{AnalogQuality, to_flag_bits}
use dnp3_bridge.Outstation.Updates.{
  OutstationManager, Applied, analog_write, binary_write, suppress,
}
use dnp3_bridge.Outstation.Updates.Delivery.{content, expected_write, drain-content}
use dnp3_bridge.Commands.Dispatcher.{Dispatcher, fulfill}
use dnp3_bridge.Bridge.{Event, new_bridge, run}
use dnp3_bridge.Bridge.Queue.{accepted, batch_of, run-fifo, run-IsDrained, new_bridge-IsDrained}
use dnp3_bridge.Service.{
  AnalogPoint, BinaryPoint, UpdateRequest, CommandResultStatus, to_quality, to_command_status,
  analog_updates, binary_updates, update_points, respond_to_command,
}

-- What the SCADA's side receives for a point of a request, its event mode left out.
abbrev pub analog_content : {D : Type 0} → AnalogQuality → AnalogPoint D → Applied D
analog_content q a = analog_write (record {
  index = a.index % 2 ^ 16;
  value = a.value;
  flags = to_flag_bits q (to_quality a.quality);
  mode = suppress;
})

abbrev pub binary_content : {D : Type 0} → AnalogQuality → BinaryPoint → Applied D
binary_content q b = binary_write (record {
  index = b.index % 2 ^ 16;
  value = b.value;
  flags = to_flag_bits q (to_quality b.quality);
  mode = suppress;
})

module _ {D : Type 0} (q : AnalogQuality) where
  analog_updates-expected :
      (points : List (AnalogPoint D))
      → map (expected_write q) (analog_updates points) ≡ map (analog_content q) points
  unfolding analog_updates
  analog_updates-expected [] = refl
  analog_updates-expected (a ∷ points) =
      ap (λ ws. analog_content q a ∷ ws) (analog_updates-expected points)

  binary_updates-expected :
      (points : List BinaryPoint)
      → map (expected_write {D = D} q) (binary_updates points) ≡ map (binary_content q) points
  unfolding binary_updates
  binary_updates-expected [] = refl
  binary_updates-expected (b ∷ points) =
      ap (λ ws. binary_content q b ∷ ws) (binary_updates-expected points)

  pub update_points-expected :
      (r : UpdateRequest D) (now_ms : ℕ)
      → map (expected_write q) (update_points r now_ms).0
        ≡ map (analog_content q) r.analogs ++ map (binary_content q) r.binaries
  unfolding update_points
  update_points-expected r now_ms =
      map-append (expected_write q) (analog_updates r.analogs) (binary_updates r.binaries)
      ∙ cc (analog_updates-expected r.analogs, binary_updates-expected r.binaries)

nothing_left :
    {A : Type 0} (xs ys zs all : List A) → xs ++ (ys ++ zs) ≡ all → ys ≡ [] → zs ≡ [] → xs ≡ all
nothing_left xs ys zs all e h k = ground (arith, append-nil xs)

module _ (f : Double) (q : AnalogQuality) where
  open f use {D}

  -- Once nothing is left in the queue or the batch, all that applyUpdate took has arrived.
  pub run-applied :
      (es : List (Event D)) (m : OutstationManager D)
      → m.outstation ≡ true
      → batch_of (run f q (new_bridge f q m) es).thread ≡ []
      → (run f q (new_bridge f q m) es).queue ≡ []
      → map content (run f q (new_bridge f q m) es).applied ≡ map (expected_write q) (accepted es)
  run-applied es m on flushed empty =
      let b = run f q (new_bridge f q m) es in
      let all : b.delivered ≡ accepted es =
        nothing_left b.delivered _ _ (accepted es) (run-fifo f q es m) flushed empty in
      ap (λ p. map content p.1)
        (sym (run-IsDrained f q m es (new_bridge f q m) (new_bridge-IsDrained f q m)))
      ∙ (drain-content f q b.delivered m on ∙ ap (map (expected_write q)) all)

  -- While the outstation is up: in every interleaving of the bridge in which the updates of one
  -- UpdatePoints request are the ones that it took, once nothing is left in the queue or the batch,
  -- the outstation has been handed each analog point and then each binary point of the request, in
  -- order, with its value, its index modulo 2^16 and the flags of its quality; counters reach nobody.
  update_points-arrives :
      (r : UpdateRequest D) (now_ms : ℕ) (es : List (Event D)) (m : OutstationManager D)
      → m.outstation ≡ true
      → accepted es ≡ (update_points r now_ms).0
      → batch_of (run f q (new_bridge f q m) es).thread ≡ []
      → (run f q (new_bridge f q m) es).queue ≡ []
      → map content (run f q (new_bridge f q m) es).applied
        ≡ map (analog_content q) r.analogs ++ map (binary_content q) r.binaries
  update_points-arrives r now_ms es m on taken flushed empty =
      run-applied es m on flushed empty
      ∙ (ap (map (expected_write q)) taken ∙ update_points-expected q r now_ms)

-- An index beyond 16 bits is not refused: it stands for the point of its low 16 bits.
abbrev raise_index : {D : Type 0} → ℕ → AnalogPoint D → AnalogPoint D
raise_index k a = record a { index = a.index + k * 2 ^ 16 }

module _ {D : Type 0} where
  analog_updates-raised :
      (k : ℕ) (points : List (AnalogPoint D))
      → analog_updates (map (raise_index k) points) ≡ analog_updates points
  unfolding analog_updates
  analog_updates-raised k [] = refl
  analog_updates-raised k (a ∷ points) =
      let wraps : u16 (a.index + k * 2 ^ 16) ≡ u16 a.index = omega arith in
      rw (wraps, analog_updates-raised k points) refl

  -- UpdatePoints accepts analog indices beyond 16 bits and updates other points with them: adding any
  -- multiple of 2^16 to the indices of a request changes nothing of what it does or answers.
  update_points-wraps :
      (k : ℕ) (r : UpdateRequest D) (now_ms : ℕ)
      → update_points (record r { analogs = map (raise_index k) r.analogs }) now_ms
        ≡ update_points r now_ms
  unfolding update_points
  update_points-wraps k r now_ms = rw (analog_updates-raised k r.analogs) refl

-- A pending id: RespondToCommand reports success, sets the status for the call that the id stands
-- for, and the id is no longer pending.
respond_to_command-fulfilled :
    (id t : ℕ) (result : CommandResultStatus) (d : Dispatcher)
    → find id d.pending ≡ some t
    → let r = respond_to_command id result d in
      (r.2 ≡ record { accepted = true; message = "fulfilled" })
      × (r.1 ≡ some (t, to_command_status result))
      × (find id r.0.pending ≡ none)
unfolding respond_to_command
respond_to_command-fulfilled id t result d h =
    ground (arith, find-erase id id d.pending, beq_refl id)

-- An id that is not pending, because it never was, was answered or was given up: RespondToCommand
-- reports failure, sets nothing and changes nothing.
respond_to_command-unknown :
    (id : ℕ) (result : CommandResultStatus) (d : Dispatcher)
    → find id d.pending ≡ none
    → respond_to_command id result d
      ≡ (d, none, record { accepted = false; message = "unknown command_id" })
unfolding respond_to_command
respond_to_command-unknown id result d h = rw (h, respond_to_command, fulfill) refl
