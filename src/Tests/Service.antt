-- ===== src/Tests/Service.antt =====
-- Requests to the service.
use dnp3_bridge.Base.{true, some, Option, ℕ, zero, suc, List, [], ◌∷◌, nat_eq}
use dnp3_bridge.DataModel.{good, bad, analog, binary}
use dnp3_bridge.Bridge.{Event, apply_update, start, wake, flush_one}
use dnp3_bridge.Service.{UpdateRequest, quality_bad, quality_good}

abbrev request : UpdateRequest (Option ℕ)
request = record {
  analogs = record { index = 2; value = some 100; quality = quality_bad } ∷ [];
  binaries = record { index = 1; value = true; quality = quality_good } ∷ [];
  counters = [];
}

-- Two clients: the second one's point comes between the points of the first one's request.
abbrev other : UpdateRequest (Option ℕ)
other = record {
  analogs = record { index = 3; value = some 7; quality = quality_good } ∷ [];
  binaries = [];
  counters = [];
}

abbrev nothing : UpdateRequest (Option ℕ)
nothing = record { analogs = []; binaries = []; counters = [] }

abbrev requests : ℕ → UpdateRequest (Option ℕ)
requests zero = request
requests (suc zero) = other
requests (suc (suc t)) = nothing

abbrev concurrent : List (Event (Option ℕ))
concurrent =
    start
    ∷ apply_update (analog (record { index = 2; value = some 100; quality = bad }))
    ∷ wake
    ∷ apply_update (analog (record { index = 3; value = some 7; quality = good }))
    ∷ flush_one
    ∷ apply_update (binary (record { index = 1; value = true; quality = good }))
    ∷ flush_one
    ∷ wake
    ∷ flush_one
    ∷ flush_one
    ∷ flush_one
    ∷ []
