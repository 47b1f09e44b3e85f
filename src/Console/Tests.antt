-- ===== src/Console/Tests.antt =====
-- Options and commands.
use dns_relay_server.Base.{◌≡◌, refl, true, false, none, List, [], ◌∷◌, Run, ok, arith}
use dns_relay_server.Entry.{Text}
use dns_relay_server.Memory.{store_bytes}
use dns_relay_server.Memory.Sample.{sample}
use dns_relay_server.Address.{load_text}
use dns_relay_server.Inet.{string_length}
use dns_relay_server.Console.{
  ℤ, Options, Console, Output, console_parse, read_line, begins, set_scan_time, set_debug,
  handle_word, handle_line, handle_lines,
}
use dns_relay_server.Console.Parse.{returns, console_parse-fits}
use dns_relay_server.Console.Handle.{IsConsole, handle_lines-IsConsole}

-- A string of digits is read as its length.
abbrev atoi : Text → ℤ
atoi [] = ℤ.pos 0
atoi (b ∷ s) = ℤ.pos 45

abbrev options : Options
options = record {
  debug = 0;
  cache_len = ℤ.pos 30;
  local_dns_addr = sample 64 [];
  host_dest = sample 255 [];
}

-- The arguments "-d2" and ":8".
console_parse-fits_example :
    returns (console_parse atoi ((45 ∷ 100 ∷ 50 ∷ []) ∷ (58 ∷ 56 ∷ []) ∷ []) options) ≡ true
console_parse-fits_example =
    console_parse-fits atoi ((45 ∷ 100 ∷ 50 ∷ []) ∷ (58 ∷ 56 ∷ []) ∷ []) options
      (record { address = refl; host = refl })

abbrev console : Console
console = record {
  debug = 0;
  scan_time = 60;
  server_addr = 0;
  cache = record {
    list = λ _. record { domain_name = none; ip = none; type = 0; addition = 0; timestamp = 0 };
    set = λ _. 0;
    length = 0;
    links = record { next = λ p. 1; prev = λ p. 1 };
  };
  cmd = sample 255 [];
}

-- The lines "d2" and "cache-s 4".
abbrev typed : List Text
typed = (100 ∷ 50 ∷ []) ∷ (99 ∷ 97 ∷ 99 ∷ 104 ∷ 101 ∷ 45 ∷ 115 ∷ 32 ∷ 52 ∷ []) ∷ []

program : Unit {0}
unfolding handle_lines handle_line handle_word set_scan_time set_debug read_line begins load_text
    string_length store_bytes
program = tt

abbrev result : Run (Console × List Output) → Console × List Output
result (ok r) = r
result Run.fault = (console, [])
result Run.out_of_fuel = (console, [])

abbrev after : Console × List Output
after = result (handle_lines atoi (λ _. none) 20 2 0 false typed console)

printed : after.1 ≡ Output.debug_level 2 ∷ Output.scan_period 45 ∷ []
unfolding program
printed = refl

handle_lines-IsConsole_example : IsConsole after.0
unfolding program
handle_lines-IsConsole_example =
    handle_lines-IsConsole atoi (λ _. none) 20 2 0 false typed console after.0 after.1
      (record { debug = omega arith; scan_time = omega arith }) refl
