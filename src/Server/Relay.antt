-- ===== src/Server/Relay.antt =====
-- A request that is answered by the DNS server: it is forwarded, and the answer goes back.
use dns_relay_server.Base.{
  ◌^◌, ℕ, ◌%◌, ◌<◌, ◌≡◌, ◌≢◌, refl, sym, ◌∙◌, true, false, ◌==◌, none, some, List, [], ◌∷◌, map,
  select, length, arith, Run, ok, ◌>>=◌, Returns, Bool-cases, inl, inr,
}
use dns_relay_server.Net.{SockAddr}
use dns_relay_server.Entry.{Text, DnsEntry}
use dns_relay_server.Protocol.{Quest, Packet}
use dns_relay_server.IdMap.{IdMap, uint16_max, add_to_map, query_map}
use dns_relay_server.IdMap.View.{next_serial, slot_busy, add_to_map-view, query_map-add_to_map}
use dns_relay_server.Cache.{Cache}
use dns_relay_server.Cache.Inv.{Holds, is_some}
use dns_relay_server.Cache.Query.{is_answer, on_node}
use dns_relay_server.Query.{url_store}
use dns_relay_server.Query.Store.{AllData, entry_of, insert_all, of_type, url_store-Holds}
use dns_relay_server.Query.Answers.{AllFit, answer_for, url_query-answers}
use dns_relay_server.Server.{
  Server, Sent, forwarded, relayed, responded, get_qr, relay, forward, handle_request,
  handle_response, connect_handle,
}

-- A packet with one question, for a name and a type below 256.
pub record Asks (p : Packet) (q : Quest) (name : Text) : Type 0 where
  pub request : get_qr p.flags ≡ 0
  pub one : p.quests ≡ q ∷ []
  pub named : q.qname ≡ some name
  pub small : q.qtype % 256 ≡ q.qtype

-- A server that has read no host file.
abbrev pub no_host : Cache → IdMap → Server
no_host c ids = record { cache = c; hosts = none; ids = ids }

-- Two packets, one after the other: what is sent, and the state behind both.
unfoldable pub exchange :
    (len now : ℕ)
    → Packet
    → SockAddr
    → (later : ℕ) → Packet
    → SockAddr
    → Server
    → Run (List Sent × Server)
exchange len now p from later p' anyone s = do
  r ← connect_handle len now p from s
  r' ← connect_handle len later p' anyone r.server
  ok (r.sent ∷ r'.sent ∷ [], r'.server)

add_to_map-free :
    (now origin : ℕ) (from : SockAddr) (ids : IdMap)
    → slot_busy now ids ≢ true
    → (add_to_map now now origin (some from) ids).0 ≡ next_serial ids
add_to_map-free now origin from ids free =
    let (low, serial, _) = add_to_map-view now now origin from ids 0 in
    let idle : slot_busy now ids ≡ false = elim (Bool-cases (slot_busy now ids)) [
      | inl h ↦ absurd (free h)
      | inr h ↦ h
    ] in
    rw idle at serial

pub response-relayed :
    (len later : ℕ) (p : Packet) (anyone : SockAddr) (c c' : Cache) (ids : IdMap)
    → get_qr p.flags ≡ 1
    → url_store len later p c ≡ ok c'
    → connect_handle len later p anyone (no_host c ids)
      ≡ ok (record {
        sent = relay (query_map p.id ids).0;
        server = no_host c' (query_map p.id ids).1;
        rotations = [];
        detached = 0;
      })
unfolding connect_handle handle_response
response-relayed len later p anyone c c' ids response stored = rw (response, stored)

forward-free :
    (now : ℕ) (p : Packet) (from : SockAddr) (s : Server)
    → slot_busy now s.ids ≢ true
    → forward now p from s ≡ (
      forwarded (next_serial s.ids),
      record s { ids = (add_to_map now now p.id (some from) s.ids).1 },
    )
unfolding forward
forward-free now p from s free =
    let low = (add_to_map-view now now p.id from s.ids 0).0 in
    let offered = add_to_map-free now p.id from s.ids free in
    let valid : (next_serial s.ids == uint16_max) ≡ false = ground arith in rw (offered, valid)

module _ (len now : ℕ) (p : Packet) (q : Quest) (name : Text) (asks : Asks p q name)
    (from : SockAddr) (c : Cache) (ids : IdMap) (es : List DnsEntry) (h : Holds len c es) where
  -- With no host file, a request for a name with entries in the cache that fit: the answers of exactly these entries
  -- are sent to the client, and the server's state is the same.
  pub connect_handle-responded :
      (e : DnsEntry) (hits : List DnsEntry)
      → select (is_answer now name q.qtype) es ≡ e ∷ hits
      → AllFit q.qtype (e ∷ hits)
      → length (e ∷ hits) < 2 ^ 16
      → Returns (connect_handle len now p from (no_host c ids)) λ r.
        (r.sent ≡ responded (record p { ans = map (answer_for now q) (e ∷ hits) }) from)
        × (r.server ≡ no_host c ids)
  unfolding connect_handle handle_request
  connect_handle-responded e hits found fit few =
      let run =
        url_query-answers len now q name asks.named asks.small c es h p asks.one (rw found fit)
          (rw found few) in
      let some_left : (length (e ∷ hits) == 0) ≡ false = ground arith in
      (
        record {
          sent = responded (record p { ans = map (answer_for now q) (e ∷ hits) }) from;
          server = no_host c ids;
          rotations = select (on_node (is_answer now name q.qtype) c) h.nodes ∷ [];
          detached = 0;
        },
        rw (asks.request, run, found, some_left),
        (refl, refl),
      )

  pub request-forwarded :
      select (is_answer now name q.qtype) es ≡ []
      → slot_busy now ids ≢ true
      → Returns (connect_handle len now p from (no_host c ids)) λ r.
        (r.sent ≡ forwarded (next_serial ids))
        × (r.server ≡ no_host c (add_to_map now now p.id (some from) ids).1)
  unfolding connect_handle handle_request
  request-forwarded missing free =
      let run =
        url_query-answers len now q name asks.named asks.small c es h p asks.one (rw missing tt)
          (rw missing (omega arith)) in
      (
        record {
          sent = forwarded (next_serial ids);
          server = no_host c (add_to_map now now p.id (some from) ids).1;
          rotations = select (on_node (is_answer now name q.qtype) c) h.nodes ∷ [];
          detached = 0;
        },
        rw (asks.request, run, missing, forward-free now p from (no_host c ids) free),
        (refl, refl),
      )

  -- With no host file and a well-formed cache of a capacity that is not 0: a request without an
  -- answer in the cache, whose slot is free, is forwarded under the next serial number; the
  -- response with that number, with a named question and the strings of its answers of the
  -- question's type, goes to the client that asked, under its own id; and these answers have been
  -- inserted in the cache.
  pub connect_handle-relay :
      (later : ℕ) (p' : Packet) (q' : Quest) (qs : List Quest) (anyone : SockAddr)
      → 0 < len
      → select (is_answer now name q.qtype) es ≡ []
      → slot_busy now ids ≢ true
      → get_qr p'.flags ≡ 1
      → p'.id ≡ next_serial ids
      → p'.quests ≡ q' ∷ qs
      → is_some q'.qname ≡ true
      → AllData q'.qtype p'.ans
      → Returns (exchange len now p from later p' anyone (no_host c ids)) λ (sent, s').
        (sent ≡ forwarded (next_serial ids) ∷ relayed p.id from ∷ [])
        × Holds len s'.cache
            (insert_all len (map (entry_of later q'.qname) (select (of_type q'.qtype) p'.ans)) es)
  unfolding exchange
  connect_handle-relay later p' q' qs anyone pos missing free response same asked named all =
      let (r, run, (sent, server)) = request-forwarded missing free in
      let (c', stored, held) = url_store-Holds len later pos q' qs named p' c es asked all h in
      let back = (query_map-add_to_map now now p.id from ids free).0 in
      let number = (add_to_map now now p.id (some from) ids).0 in
      let waiting = (add_to_map now now p.id (some from) ids).1 in
      let serial : number ≡ p'.id = add_to_map-free now p.id from ids free ∙ sym same in
      let found : (query_map p'.id waiting).0 ≡ some (p.id, from) = rw (← serial) back in
      let run' = response-relayed len later p' anyone c c' waiting response stored in
      (
        (
          forwarded (next_serial ids) ∷ relayed p.id from ∷ [],
          no_host c' (query_map p'.id waiting).1,
        ),
        rw (run, server, sent, run', found),
        (refl, held),
      )
