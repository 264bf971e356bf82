-- ===== src/Commands/Interleaving/Invariant.antt =====
-- What holds between two events, as long as fewer than 2^64 - 1 calls have begun.
use dnp3_bridge.Base.{ℕ, suc, ◌≤◌, ◌≡◌, ◌⊎◌, Bool, true, false, Option, none, some, find, nat_eq}
use dnp3_bridge.Commands.Message.{CommandStatus, timeout, not_supported, downstream_fail}
use dnp3_bridge.Commands.Interleaving.{
  Phase, idle, numbered, stored, awaiting, expired, returned, threw, Call, System,
}

-- The call's promise has been stored and not yet been given up.
abbrev pub is_open : Phase → Bool
is_open stored = true
is_open awaiting = true
is_open expired = true
is_open _ = false

abbrev pub is_unstored : Phase → Bool
is_unstored idle = true
is_unstored numbered = true
is_unstored _ = false

abbrev pub is_idle : Phase → Bool
is_idle idle = true
is_idle _ = false

-- A status that dispatch returns by itself, or the answer that its future holds.
abbrev pub IsJustified : Phase → Option CommandStatus → Type 0
IsJustified (returned status) answer =
    (status ≡ not_supported)
    ⊎ (status ≡ downstream_fail)
    ⊎ (status ≡ timeout)
    ⊎ (answer ≡ some status)
IsJustified threw answer = ⊥
IsJustified _ answer = Unit {0}

-- A call that has begun carries the id that its place in the order of beginnings gives it.
abbrev pub IsNumbered : {D : Type 0} → ℕ → Call D → Type 0
IsNumbered t c = (is_idle c.phase ≡ true) ⊎ (c.request.command_id ≡ suc t)

module _ {D : Type 0} where
  -- One call and what the map says of its id.
  pub record IsCoherent (s : System D) (t : ℕ) (c : Call D) : Type 0 where
    pub idle : s.started ≤ t → is_idle c.phase ≡ true
    pub started : is_idle c.phase ≡ true → s.started ≤ t
    pub numbered : IsNumbered t c
    pub unset : is_unstored c.phase ≡ true → c.answer ≡ none
    pub kept : is_open c.phase ≡ true → c.answer ≡ none → find (suc t) s.dispatcher.pending ≡ some t
    pub justified : IsJustified c.phase c.answer

  pub record Inv (s : System D) : Type 0 where
    pub counter : s.dispatcher.next_id ≡ suc s.started
    pub owner :
        (id t : ℕ)
        → find id s.dispatcher.pending ≡ some t
        → (id ≡ suc t) × (is_open (s.calls t).phase ≡ true) × ((s.calls t).answer ≡ none)
    pub coherent : (t : ℕ) → IsCoherent s t (s.calls t)
