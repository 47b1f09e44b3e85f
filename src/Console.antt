-- ===== src/Console.antt =====
-- src/Server/console.c: the options of the command line and the commands of the debug thread, with
-- the global variables that they set. `atoi` and `inet_addr` are the C library's and are given. An
-- `int` is a ℤ.
pub mod Parse
pub mod Handle
mod Tests
use dns_relay_server.Base.{
  ℕ, zero, suc, ◌+◌, ltb, leb, ◌==◌, ◌&&◌, Bool, true, false, if◌then◌else◌, Option, none, some,
  List, [], ◌∷◌, ◌++◌, length, Run, ok, fault, ◌>>=◌,
}
use dns_relay_server.Entry.{Text}
use dns_relay_server.Memory.{Memory, load, store_bytes}
use dns_relay_server.Address.{load_text}
use dns_relay_server.Inet.{string_length}
use dns_relay_server.Cache.{Cache, cache_flush}
use dns_relay_server.Cache.Report.{Printed, cache_check, cache_output}

pub data ℤ : Type 0 where
  pos : ℕ → ℤ
  negsuc : ℕ → ℤ

-- The variables that the options set. `host_dest` and `local_dns_addr` are arrays.
pub record Options : Type 0 where
  pub debug : ℕ
  pub cache_len : ℤ
  pub local_dns_addr : Memory
  pub host_dest : Memory

-- A byte of a C string, whose final 0 is not in the list.
abbrev pub char_at : Text → ℕ → ℕ
char_at [] i = 0
char_at (b ∷ s) zero = b
char_at (b ∷ s) (suc i) = char_at s i

abbrev pub rest_of : ℕ → Text → Text
rest_of zero s = s
rest_of (suc n) [] = []
rest_of (suc n) (b ∷ s) = rest_of n s

-- `strcpy` into an array.
abbrev pub copy_text : Text → Memory → Run Memory
copy_text s dest = store_bytes (s ++ 0 ∷ []) dest 0

-- The options that begin with '-': "d" and "c".
unfoldable pub parse_switch : (atoi : Text → ℤ) → Text → Options → Options
parse_switch atoi arg o =
    if char_at arg 1 == 100
    then record o { debug = if leb 3 (length arg) && (char_at arg 2 == 50) then 2 else 1 }
    else if (char_at arg 1 == 99) && leb 3 (length arg)
    then record o { cache_len = atoi (rest_of 2 arg) }
    else o

-- One argument: '-', ':' or '+', and what follows.
unfoldable pub parse_arg : (atoi : Text → ℤ) → Text → Options → Run Options
parse_arg atoi arg o =
    let address = (do
      m ← copy_text (rest_of 1 arg) o.local_dns_addr
      ok (record o { local_dns_addr = m })) in
    let host = (do m ← copy_text (rest_of 1 arg) o.host_dest; ok (record o { host_dest = m })) in
    if (char_at arg 0 == 45) && leb 2 (length arg)
    then ok (parse_switch atoi arg o)
    else if (char_at arg 0 == 58) && leb 2 (length arg)
    then address
    else if (char_at arg 0 == 43) && leb 2 (length arg)
    then host
    else ok o

-- The loop over the arguments behind the program's name.
unfoldable pub console_parse : (atoi : Text → ℤ) → List Text → Options → Run Options
console_parse atoi [] o = ok o
console_parse atoi (arg ∷ args) o = do o' ← parse_arg atoi arg o; console_parse atoi args o'

-- The variables that the commands set, and the array `cmd`.
pub record Console : Type 0 where
  pub debug : ℕ
  pub scan_time : ℕ
  pub server_addr : ℕ
  pub cache : Cache
  pub cmd : Memory

-- What a command prints.
pub data Output : Type 0 where
  debug_level : ℕ → Output
  threads : Output
  records : List Printed → ℕ → Output
  file : Option (List Printed × ℕ) → Output
  flushed : Output
  scan_period : ℕ → Output
  server_reset : Output
  no_address : Output
  undefined : Output

-- `scanf("%[^\n]", cmd)`: an empty line leaves the array as it is.
unfoldable pub read_line : Text → Memory → Run Memory
read_line [] cmd = ok cmd
read_line (b ∷ line) cmd = copy_text (b ∷ line) cmd

-- `strncmp` with all of a string, and with its final 0 `strcmp`, up to the first difference.
unfoldable pub begins : Text → Memory → (i : ℕ) → Run Bool
begins [] m i = ok true
begins (b ∷ s) m i =
    let rest = begins s m (suc i) in do c ← load m i; if c == b then rest else ok false

-- `time > 30 ? time : 30`.
abbrev pub at_least_30 : ℤ → ℕ
at_least_30 (ℤ.pos n) = if ltb 30 n then n else 30
at_least_30 (ℤ.negsuc n) = 30

-- `none` is INADDR_NONE.
abbrev pub reset_server : Console → Option ℕ → Console × Output
reset_server s none = (s, Output.no_address)
reset_server s (some addr) = (record s { server_addr = addr }, Output.server_reset)

module _ (atoi : Text → ℤ) (inet_addr : Text → Option ℕ) (fuel len now : ℕ) (opened : Bool) where
  -- "cache-s": the period of the scan.
  unfoldable pub set_scan_time : Console → Run (Console × Output)
  set_scan_time s = do
    text ← load_text fuel s.cmd 8
    let time = at_least_30 (atoi text)
    ok (record s { scan_time = time }, Output.scan_period time)

  -- "server": another address of the DNS server.
  unfoldable pub set_server : Console → Run (Console × Output)
  set_server s = do text ← load_text fuel s.cmd 7; ok (reset_server s (inet_addr text))

  -- 'd': the debug level.
  unfoldable pub set_debug : Console → Run (Console × Output)
  set_debug s = do
    level ← load s.cmd 1
    let debug = if level == 50 then 2 else if level == 49 then 1 else 0
    ok (record s { debug = debug }, Output.debug_level debug)

  -- The commands that do not begin with 'd' or 't', in the order of the tests.
  unfoldable pub handle_word : Console → Run (Console × Output)
  handle_word s =
      let check = (do (r, total) ← cache_check len now s.cache; ok (s, Output.records r total)) in
      let flush = (do c ← cache_flush len s.cache; ok (record s { cache = c }, Output.flushed)) in
      let output = (do r ← cache_output len now opened s.cache; ok (s, Output.file r)) in
      let scan = (do
        n ← string_length fuel s.cmd 0
        if leb 6 n then set_scan_time s else ok (s, Output.undefined)) in
      let server = (do
        is_server ← begins (115 ∷ 101 ∷ 114 ∷ 118 ∷ 101 ∷ 114 ∷ []) s.cmd 0
        if is_server then set_server s else ok (s, Output.undefined)) in
      let period = (do
        is_scan ← begins (99 ∷ 97 ∷ 99 ∷ 104 ∷ 101 ∷ 45 ∷ 115 ∷ []) s.cmd 0
        if is_scan then scan else server) in
      let printing = (do
        is_output ← begins (99 ∷ 97 ∷ 99 ∷ 104 ∷ 101 ∷ 45 ∷ 111 ∷ 0 ∷ []) s.cmd 0
        if is_output then output else period) in
      let flushing = (do
        is_flush ← begins (102 ∷ 108 ∷ 117 ∷ 115 ∷ 104 ∷ 0 ∷ []) s.cmd 0
        if is_flush then flush else printing) in
      do
        is_check ← begins (99 ∷ 97 ∷ 99 ∷ 104 ∷ 101 ∷ 45 ∷ 99 ∷ 0 ∷ []) s.cmd 0
        if is_check then check else flushing

  -- One round of `debugHandle`.
  unfoldable pub handle_line : Text → Console → Run (Console × Output)
  handle_line line s₀ = do
    cmd ← read_line line s₀.cmd
    let s = record s₀ { cmd = cmd }
    first ← load cmd 0
    if first == 100
        then set_debug s
        else if first == 116
        then ok (s, Output.threads)
        else handle_word s

  -- The loop, for the lines that are typed.
  unfoldable pub handle_lines : List Text → Console → Run (Console × List Output)
  handle_lines [] s = ok (s, [])
  handle_lines (line ∷ lines) s = do
    (s', out) ← handle_line line s
    (s'', outs) ← handle_lines lines s'
    ok (s'', out ∷ outs)
