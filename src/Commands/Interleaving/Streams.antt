-- ===== src/Commands/Interleaving/Streams.antt =====
-- Which stream a command is written to.
use mathlib.Core.Option.{some-injective}
use dnp3_bridge.Base.{
  ℕ, ◌≡◌, refl, ◌∙◌, ap, ◌≢◌, ◌↔◌, ◌⊎◌, inl, inr, Option, none, some, List, [], ◌∷◌, ◌++◌, All,
  arith, eqb_iff, nat_eq, if◌then◌else◌,
}
use dnp3_bridge.Commands.Message.{CommandStatus}
use dnp3_bridge.Commands.Dispatcher.{
  Dispatcher, store_promise, WriteOutcome, write_request, give_up, fulfill, is_writer,
}
use dnp3_bridge.Commands.Interleaving.{
  Phase, numbered, stored, System, Event, begin, store, write, ready, expire, abandon, respond,
  open_stream, close_stream, initial, after_write, deliver, begin_call, store_call, write_call,
  collect_call, expire_call, abandon_call, respond_call, step, run,
}

write_request-writer :
    (id : ℕ) (o : WriteOutcome) (d : Dispatcher)
    → (write_request id o d).0.active_writer ≡ d.active_writer
unfolding write_request
write_request-writer id o d = ground arith

fulfill-writer : (id : ℕ) (d : Dispatcher) → (fulfill id d).0.active_writer ≡ d.active_writer
unfolding fulfill
fulfill-writer id d = ground arith

closed-other :
    (a : Option ℕ) (v w : ℕ) → (if is_writer a v then none else a) ≡ some w → (a ≡ some w) × (w ≢ v)
closed-other none v w h = cc
closed-other (some u) v w h = ground (arith, eqb_iff u v)

closed-keeps : (v w : ℕ) → w ≢ v → (if is_writer (some w) v then none else some w) ≡ some w
closed-keeps v w h = ground (arith, eqb_iff w v)

module _ {D : Type 0} where
  abbrev pub writer_of : System D → Option ℕ
  writer_of s = s.dispatcher.active_writer

  abbrev next_writer : Event D → Option ℕ → Option ℕ
  next_writer (open_stream w) a = some w
  next_writer (close_stream w) a = if is_writer a w then none else a
  next_writer _ a = a

  after_write-writer :
      (t : ℕ) (r : Dispatcher × Option CommandStatus) (s : System D)
      → writer_of (after_write t r s) ≡ r.0.active_writer
  after_write-writer t (d, none) s = refl
  after_write-writer t (d, some status) s = refl

  deliver-writer :
      (status : CommandStatus) (r : Dispatcher × Option ℕ) (s : System D)
      → writer_of (deliver status r s) ≡ r.0.active_writer
  deliver-writer status (d, none) s = refl
  deliver-writer status (d, some t) s = refl

  store_call-writer :
      (ph : Phase) (t : ℕ) (s : System D) → writer_of (store_call ph t s) ≡ writer_of s
  unfolding store_call store_promise
  store_call-writer numbered t s = ground arith
  store_call-writer _ t s = refl

  write_call-writer :
      (ph : Phase) (t : ℕ) (o : WriteOutcome) (s : System D)
      → writer_of (write_call ph t o s) ≡ writer_of s
  unfolding write_call
  write_call-writer stored t o s =
      after_write-writer t (write_request (s.calls t).request.command_id o s.dispatcher) s
      ∙ write_request-writer (s.calls t).request.command_id o s.dispatcher
  write_call-writer _ t o s = refl

  step-writer : (e : Event D) (s : System D) → writer_of (step e s) ≡ next_writer e (writer_of s)
  unfolding step begin_call collect_call expire_call abandon_call respond_call give_up
  step-writer (begin request) s = refl
  step-writer (store t) s = store_call-writer _ t s
  step-writer (write t o) s = write_call-writer _ t o s
  step-writer (respond id status) s =
      deliver-writer status (fulfill id s.dispatcher) s ∙ fulfill-writer id s.dispatcher
  step-writer _ s = ground arith

  -- After this event a writer that was active still is: no other stream opens, and this one does not
  -- close.
  abbrev pub Keeps : ℕ → Event D → Type 0
  Keeps w (open_stream v) = ⊥
  Keeps w (close_stream v) = w ≢ v
  Keeps w _ = Unit {0}

  -- The last stream to open was this one, and it has not closed.
  abbrev pub IsLastOpened : ℕ → List (Event D) → Type 0
  IsLastOpened w es =
      (pre : List (Event D)) × (post : List (Event D)) × (es ≡ pre ++ open_stream w ∷ post)
      × All (Keeps w) post

  abbrev Traced : ℕ → Option ℕ → List (Event D) → Type 0
  Traced w a es = ((a ≡ some w) × All (Keeps w) es) ⊎ IsLastOpened w es

  Traced-cons :
      (w : ℕ) (e : Event D) (a : Option ℕ) (es : List (Event D))
      → Traced w (next_writer e a) es
      → Traced w a (e ∷ es)
  Traced-cons w (open_stream v) a es (inl (h, k)) =
      inr ([], es, ap (λ u. open_stream u ∷ es) (some-injective v w h), k)
  Traced-cons w (close_stream v) a es (inl (h, k)) =
      let (before, other) = closed-other a v w h in inl (before, (other, k))
  Traced-cons w (begin r) a es (inl (h, k)) = inl (h, (tt, k))
  Traced-cons w (store t) a es (inl (h, k)) = inl (h, (tt, k))
  Traced-cons w (write t o) a es (inl (h, k)) = inl (h, (tt, k))
  Traced-cons w (ready t) a es (inl (h, k)) = inl (h, (tt, k))
  Traced-cons w (expire t) a es (inl (h, k)) = inl (h, (tt, k))
  Traced-cons w (abandon t) a es (inl (h, k)) = inl (h, (tt, k))
  Traced-cons w (respond id status) a es (inl (h, k)) = inl (h, (tt, k))
  Traced-cons w e a es (inr (pre, post, split, k)) = inr (e ∷ pre, post, ap (◌∷◌ e) split, k)

  run-Traced :
      (es : List (Event D)) (s : System D) (w : ℕ)
      → writer_of (run s es) ≡ some w
      → Traced w (writer_of s) es
  unfolding run
  run-Traced [] s w h = inl (h, tt)
  run-Traced (e ∷ es) s w h =
      Traced-cons w e (writer_of s) es (rw (← step-writer e s) (run-Traced es (step e s) w h))

  next_writer-Keeps : (w : ℕ) (e : Event D) → Keeps w e → next_writer e (some w) ≡ some w
  next_writer-Keeps w (open_stream v) k = absurd k
  next_writer-Keeps w (close_stream v) k = closed-keeps v w k
  next_writer-Keeps w _ k = refl

  run-Keeps :
      (es : List (Event D)) (s : System D) (w : ℕ)
      → writer_of s ≡ some w
      → All (Keeps w) es
      → writer_of (run s es) ≡ some w
  unfolding run
  run-Keeps [] s w h k = h
  run-Keeps (e ∷ es) s w h (k, ks) =
      run-Keeps es (step e s) w (step-writer e s ∙ (ap (next_writer e) h ∙ next_writer-Keeps w e k))
        ks

  run-opened :
      (pre post : List (Event D)) (s : System D) (w : ℕ)
      → All (Keeps w) post
      → writer_of (run s (pre ++ open_stream w ∷ post)) ≡ some w
  unfolding run
  run-opened [] post s w k =
      run-Keeps post (step (open_stream w) s) w (step-writer (open_stream w) s) k
  run-opened (e ∷ pre) post s w k = run-opened pre post (step e s) w k

  -- In every interleaving, commands go to a stream exactly when it is the last one that opened and
  -- it has not closed since: a stale stream that closes takes nothing away from a newer one, and
  -- when the newest closes, no older one takes over.
  pub active_writer_iff :
      (es : List (Event D)) (w : ℕ)
      → ((run {D = D} initial es).dispatcher.active_writer ≡ some w) ↔ IsLastOpened w es
  active_writer_iff es w = (
    (λ h. elim (run-Traced es initial w h) [ inl (e, k) ↦ absurd (cc) | inr t ↦ t ]),
    λ (pre, post, split, k). rw split (run-opened pre post initial w k),
  )
