-- ===== src/Console/Handle.antt =====
-- What holds after any commands of the debug thread.
use dns_relay_server.Base.{
  ℕ, ◌≤◌, ◌≡◌, leb, ◌==◌, Bool, true, false, if◌then◌else◌, Option, none, some, List, [], ◌∷◌, Run,
  ok, fault, out_of_fuel, ◌>>=◌, arith,
}
use dns_relay_server.Entry.{Text}
use dns_relay_server.Memory.{load}
use dns_relay_server.Address.{load_text}
use dns_relay_server.Inet.{string_length}
use dns_relay_server.Cache.{cache_flush}
use dns_relay_server.Cache.Report.{cache_check, cache_output}
use dns_relay_server.Console.{
  ℤ, Console, Output, at_least_30, read_line, begins, reset_server, set_scan_time, set_server,
  set_debug, handle_word, handle_line, handle_lines,
}

-- The debug level is 0, 1 or 2, and the period of the scan is at least 30 seconds.
pub record IsConsole (s : Console) : Type 0 where
  pub debug : s.debug ≤ 2
  pub scan_time : 30 ≤ s.scan_time

-- What holds of the value if the call returns.
abbrev Keeps : {A : Type 0} → Run A → (A → Type 0) → Type 0
Keeps (ok a) post = post a
Keeps fault post = Unit
Keeps out_of_fuel post = Unit

Keeps-then :
    {A B : Type 0} (run : Run A) (go_on : A → Run B) (post : B → Type 0)
    → ((a : A) → Keeps (go_on a) post)
    → Keeps (run >>= go_on) post
Keeps-then (ok a) go_on post each = each a
Keeps-then fault go_on post each = tt
Keeps-then out_of_fuel go_on post each = tt

Keeps-both :
    {A B : Type 0} (run : Run A) (go_on : A → Run B) (mid : A → Type 0) (post : B → Type 0)
    → Keeps run mid
    → ((a : A) → mid a → Keeps (go_on a) post)
    → Keeps (run >>= go_on) post
Keeps-both (ok a) go_on mid post first each = each a first
Keeps-both fault go_on mid post first each = tt
Keeps-both out_of_fuel go_on mid post first each = tt

Keeps-if :
    {A : Type 0} (test : Bool) (run run' : Run A) (post : A → Type 0)
    → Keeps run post
    → Keeps run' post
    → Keeps (if test then run else run') post
Keeps-if true run run' post h k = h
Keeps-if false run run' post h k = k

at_least_30-le : (n : ℤ) → 30 ≤ at_least_30 n
at_least_30-le (ℤ.pos n) = ground arith
at_least_30-le (ℤ.negsuc n) = omega arith

abbrev After : (Console × Output) → Type 0
After r = IsConsole r.0

reset_server-IsConsole : (s : Console) (r : Option ℕ) → IsConsole s → IsConsole (reset_server s r).0
reset_server-IsConsole s none v = v
reset_server-IsConsole s (some addr) v = record { debug = v.debug; scan_time = v.scan_time }

module _ (atoi : Text → ℤ) (inet_addr : Text → Option ℕ) (fuel len now : ℕ) (opened : Bool) where
  set_scan_time-IsConsole :
      (s : Console) → IsConsole s → Keeps (set_scan_time atoi inet_addr fuel len now opened s) After
  unfolding set_scan_time
  set_scan_time-IsConsole s v =
      Keeps-then (load_text fuel s.cmd 8)
        (λ text. ok (
          record s { scan_time = at_least_30 (atoi text) },
          Output.scan_period (at_least_30 (atoi text)),
        ))
        After (λ text. record { debug = v.debug; scan_time = at_least_30-le (atoi text) })

  set_server-IsConsole :
      (s : Console) → IsConsole s → Keeps (set_server atoi inet_addr fuel len now opened s) After
  unfolding set_server
  set_server-IsConsole s v =
      Keeps-then (load_text fuel s.cmd 7) _ After
        (λ text. reset_server-IsConsole s (inet_addr text) v)

  set_debug-IsConsole :
      (s : Console) → IsConsole s → Keeps (set_debug atoi inet_addr fuel len now opened s) After
  unfolding set_debug
  set_debug-IsConsole s v =
      Keeps-then (load s.cmd 1) _ After
        (λ level. record { debug = ground arith; scan_time = v.scan_time })

  handle_word-IsConsole :
      (s : Console) → IsConsole s → Keeps (handle_word atoi inet_addr fuel len now opened s) After
  unfolding handle_word
  handle_word-IsConsole s v = Keeps-then (begins _ s.cmd 0) _ After λ is_check.
      Keeps-if is_check _ _ After (Keeps-then (cache_check len now s.cache) _ After λ r. v) (
        Keeps-then (begins _ s.cmd 0) _ After λ is_flush.
          Keeps-if is_flush _ _ After
            (Keeps-then (cache_flush len s.cache) _ After
              λ c. record { debug = v.debug; scan_time = v.scan_time })
            (Keeps-then (begins _ s.cmd 0) _ After λ is_output.
              Keeps-if is_output _ _ After
                (Keeps-then (cache_output len now opened s.cache) _ After λ r. v)
                (Keeps-then (begins _ s.cmd 0) _ After λ is_scan.
                  Keeps-if is_scan _ _ After
                    (Keeps-then (string_length fuel s.cmd 0) _ After
                      λ n. Keeps-if (leb 6 n) _ _ After (set_scan_time-IsConsole s v) v)
                    (Keeps-then (begins _ s.cmd 0) _ After
                      λ is_server. Keeps-if is_server _ _ After (set_server-IsConsole s v) v))))

  handle_line-IsConsole :
      (line : Text) (s : Console)
      → IsConsole s
      → Keeps (handle_line atoi inet_addr fuel len now opened line s) After
  unfolding handle_line
  handle_line-IsConsole line s v = Keeps-then (read_line line s.cmd) _ After λ cmd.
      let s' : Console = record s { cmd = cmd } in
      let v' : IsConsole s' = record { debug = v.debug; scan_time = v.scan_time } in
      Keeps-then (load cmd 0) _ After λ first.
        Keeps-if (first == 100) _ _ After (set_debug-IsConsole s' v')
          (Keeps-if (first == 116) _ _ After v' (handle_word-IsConsole s' v'))

  lines-Keeps :
      (lines : List Text) (s : Console)
      → IsConsole s
      → Keeps (handle_lines atoi inet_addr fuel len now opened lines s) (λ r. IsConsole r.0)
  unfolding handle_lines
  lines-Keeps [] s v = v
  lines-Keeps (line ∷ lines) s v =
      Keeps-both (handle_line atoi inet_addr fuel len now opened line s) _ After
        (λ r. IsConsole r.0) (handle_line-IsConsole line s v)
        (λ (s', out) v'.
          Keeps-both (handle_lines atoi inet_addr fuel len now opened lines s') _
            (λ r. IsConsole r.0) (λ r. IsConsole r.0) (lines-Keeps lines s' v') (λ r h. h))

  -- Whatever lines are typed: as long as `debugHandle` goes on, the debug level is 0, 1 or 2 and the
  -- period of the scan at least 30 seconds, if this is so at the beginning.
  pub handle_lines-IsConsole :
      (lines : List Text) (s s' : Console) (outs : List Output)
      → IsConsole s
      → handle_lines atoi inet_addr fuel len now opened lines s ≡ ok (s', outs)
      → IsConsole s'
  handle_lines-IsConsole lines s s' outs v run = rw run at (lines-Keeps lines s v)
