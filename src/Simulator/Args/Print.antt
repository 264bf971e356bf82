-- ===== src/Simulator/Args/Print.antt =====
-- Options written out and read again.
use dnp3_bridge.Base.{
  ℕ, ◌^◌, ◌<◌, ◌≡◌, refl, ap, ◌∙◌, String, Option, some, List, [], ◌∷◌, arith, All, u16,
}
use dnp3_bridge.Simulator.Args.{
  Args, default_args, parsed, set_number, take_value, parse_from, parse_args,
}

pub data Setting : Type 0 where
  host : String → Setting
  port local_addr remote_addr : ℕ → Setting

abbrev pub FitsU16 : Setting → Type 0
FitsU16 (host h) = Unit {0}
FitsU16 (port n) = n < 2 ^ 16
FitsU16 (local_addr n) = n < 2 ^ 16
FitsU16 (remote_addr n) = n < 2 ^ 16

-- The object after the settings, one after another.
abbrev pub set_all : List Setting → Args → Args
set_all [] a = a
set_all (host h ∷ ss) a = set_all ss (record a { host = h })
set_all (port n ∷ ss) a = set_all ss (record a { port = n })
set_all (local_addr n ∷ ss) a = set_all ss (record a { local_addr = n })
set_all (remote_addr n ∷ ss) a = set_all ss (record a { remote_addr = n })

module _ (decimal : ℕ → String) where
  abbrev pub print : List Setting → List String
  print [] = []
  print (host h ∷ ss) = "--host" ∷ h ∷ print ss
  print (port n ∷ ss) = "--port" ∷ decimal n ∷ print ss
  print (local_addr n ∷ ss) = "--local-addr" ∷ decimal n ∷ print ss
  print (remote_addr n ∷ ss) = "--remote-addr" ∷ decimal n ∷ print ss

  module _ (stoi : String → Option ℕ)
      (reads : (n : ℕ) → n < 2 ^ 16 → stoi (decimal n) ≡ some n) where
    next :
        (arg value : String) (rest : List String) (a a' : Args)
        → take_value stoi arg value a ≡ some (some a')
        → parse_from stoi (arg ∷ value ∷ rest) a ≡ parse_from stoi rest a'
    unfolding parse_from
    next arg value rest a a' e = rw (e, parse_from) refl

    set_number-decimal :
        (n : ℕ) (set : ℕ → Args → Args) (a : Args)
        → n < 2 ^ 16
        → set_number stoi (decimal n) set a ≡ some (set n a)
    set_number-decimal n set a h =
        let cut : u16 n ≡ n = omega (arith, h) in
        rw (reads n h, set_number) (ap (λ k. some (set k a)) cut)

    parse_from-print :
        (ss : List Setting) (a : Args)
        → All FitsU16 ss
        → parse_from stoi (print ss) a ≡ parsed (set_all ss a)
    unfolding parse_from take_value
    parse_from-print [] a h = refl
    parse_from-print (host x ∷ ss) a h = parse_from-print ss _ h.1
    parse_from-print (port n ∷ ss) a h =
        next "--port" (decimal n) (print ss) a (record a { port = n })
          (ap some (set_number-decimal n (λ n a. record a { port = n }) a h.0))
        ∙ parse_from-print ss _ h.1
    parse_from-print (local_addr n ∷ ss) a h =
        next "--local-addr" (decimal n) (print ss) a (record a { local_addr = n })
          (ap some (set_number-decimal n (λ n a. record a { local_addr = n }) a h.0))
        ∙ parse_from-print ss _ h.1
    parse_from-print (remote_addr n ∷ ss) a h =
        next "--remote-addr" (decimal n) (print ss) a (record a { remote_addr = n })
          (ap some (set_number-decimal n (λ n a. record a { remote_addr = n }) a h.0))
        ∙ parse_from-print ss _ h.1

    -- As long as std::stoi reads the decimals of the numbers below 2^16: a command line of options
    -- with values that fit is read as these settings in their order, so that the last option of a
    -- kind wins, and what none of them sets has its default.
    parse_args-print :
        (ss : List Setting)
        → All FitsU16 ss
        → parse_args stoi (print ss) ≡ parsed (set_all ss default_args)
    unfolding parse_args
    parse_args-print ss h = parse_from-print ss default_args h
