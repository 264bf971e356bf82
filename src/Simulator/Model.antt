-- ===== src/Simulator/Model.antt =====
-- tools/dnp3-master-sim/DataModel.hpp, and the two callbacks that only write to it. The type D stands
-- for double; a time_point of the steady clock is a number of nanoseconds, and the clock's value is
-- an argument of what reads it.
pub mod Log
use Prim.Native.String
use dnp3_bridge.Base.{
  ℕ, String, Bool, true, false, List, [], ◌∷◌, ◌++◌, Dict, length, leb, if◌then◌else◌, drop,
}

pub record PointValue (D : Type 0) : Type 0 where
  pub value : D
  pub flags : ℕ  -- uint8
  pub received : Bool
  pub last_update : ℕ

pub record LogEntry : Type 0 where
  pub text : String
  pub timestamp : ℕ

pub record DataModel (D : Type 0) : Type 0 where
  pub binary_inputs : Dict ℕ (PointValue D)
  pub analog_inputs : Dict ℕ (PointValue D)
  pub binary_outputs : Dict ℕ (PointValue D)
  pub analog_outputs : Dict ℕ (PointValue D)
  pub event_log : List LogEntry
  pub connected : Bool
  pub last_poll_type : String
  pub last_poll_time : String

abbrev pub max_log_entries : ℕ
max_log_entries = 200

-- The texts that std::format and opendnp3 give for numbers and states.
pub record Texts (D : Type 0) : Type 1 where
  pub State : Type 0
  pub is_open : State → Bool
  pub state_text : State → String
  pub decimal : ℕ → String
  pub signed_decimal : ℕ → String  -- an int16, by its bit pattern
  pub padded : ℕ → String  -- {:2d}
  pub hex : ℕ → String  -- {:02X}
  pub rounded : D → String  -- {:>10.0f}

-- What notify_ posts to the screen.
pub data Posted : Type 0 where
  custom_event : Posted

abbrev pub concat : List String → String
concat [] = ""
concat (s ∷ ss) = String.◌++◌ s (concat ss)

-- What the callback of a command writes of each point: its index and its status.
result_details : (ℕ → String) → List (ℕ × String) → String
result_details decimal [] = ""
result_details decimal ((index, status) ∷ results) =
    String.◌++◌ (concat ("  idx=" ∷ decimal index ∷ " status=" ∷ status ∷ []))
      (result_details decimal results)

module _ {D : Type 0} where
  abbrev pub new_model : DataModel D
  new_model = record {
    binary_inputs = [];
    analog_inputs = [];
    binary_outputs = [];
    analog_outputs = [];
    event_log = [];
    connected = false;
    last_poll_type = "";
    last_poll_time = "";
  }

  unfoldable pub add_log : String → ℕ → DataModel D → DataModel D
  add_log text now m =
      let log =
        if leb max_log_entries (length m.event_log) then drop 1 m.event_log else m.event_log in
      record m { event_log = log ++ record { text = text; timestamp = now } ∷ [] }

  -- ChannelListener::OnStateChange
  unfoldable pub on_channel_state :
      (t : Texts D) → t.State → ℕ → DataModel D → DataModel D × List Posted
  unfolding add_log
  on_channel_state t state now m = (
    add_log (concat ("Channel: " ∷ t.state_text state ∷ [])) now
        (record m { connected = t.is_open state }),
    custom_event ∷ [],
  )

  -- commandCallback: the summary, and what the points of the result say.
  unfoldable pub command_result :
      Texts D → String → List (ℕ × String) → ℕ → DataModel D → DataModel D × List Posted
  unfolding add_log result_details
  command_result t summary results now m = (
    add_log (concat ("Command result: " ∷ summary ∷ result_details t.decimal results ∷ [])) now m,
    custom_event ∷ [],
  )
