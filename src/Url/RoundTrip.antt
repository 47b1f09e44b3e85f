-- ===== src/Url/RoundTrip.antt =====
-- A name that ends in all of the question's name is formatted with a pointer, and parsed again.
use mathlib.Core.List.{append_assoc}
use dns_relay_server.Base.{
  ℕ, zero, suc, ap, ◌+◌, ◌%◌, ◌≤◌, ◌<◌, ◌≡◌, ◌∙◌, refl, true, ◌==◌, ◌||◌, List, [], ◌∷◌, ◌++◌,
  length, length-append, Option, none, some, arith, Run, ok, Returns, ◌>>=◌,
}
use dns_relay_server.Entry.{Text}
use dns_relay_server.Memory.{Memory, copy_bytes}
use dns_relay_server.Memory.Stored.{Stored, Stored-frame, Stored-split, copy_bytes-Stored}
use dns_relay_server.Protocol.{type_ns, type_cname}
use dns_relay_server.Inet.Names.{wire, dotted, AllLabels, length-le-dotted}
use dns_relay_server.Inet.Body.{
  body, length-dotted_append, dotted-append, lead, AllLabels-back, AllLabels-front, wire-append,
  length-others,
}
use dns_relay_server.Address.{Family}
use dns_relay_server.Url.{suffix_pos, url_format, url_parse, data_length}
use dns_relay_server.Url.Expand.{IsBytes}
use dns_relay_server.Url.Suffix.{suffix_pos-whole}
use dns_relay_server.Url.Format.{format_url_name-pointer}
use dns_relay_server.Url.Parse.{pointer_bytes, url_parse-pointer}

-- Two buffers that hold the same bytes agree there.
Stored-agree :
    (m k : Memory) (p q : ℕ) (xs : List ℕ)
    → Stored m p xs
    → Stored k q xs
    → (i : ℕ) → i < length xs
    → m.at (p + i) ≡ k.at (q + i)
Stored-agree m k p q [] s t i h = absurd (omega arith)
Stored-agree m k p q (x ∷ xs) s t zero h =
    let e : p + 0 ≡ p = omega arith in let e' : q + 0 ≡ q = omega arith in rw (e, e', s.0, t.0)
Stored-agree m k p q (x ∷ xs) s t (suc i) h =
    let e : suc p + i ≡ p + suc i = omega arith in
    let e' : suc q + i ≡ q + suc i = omega arith in
    rw (e, e') at (Stored-agree m k (suc p) (suc q) xs s.1 t.1 i (omega arith))

-- The data of an answer are copied behind it, and used there.
copy_then :
    (run : Run (Memory × Option ℕ)) (k buf buf' : Memory) (n src : ℕ)
    (use_data : Memory → ℕ → Run (Memory × Option ℕ))
    → run ≡ ok (k, some n)
    → n % 65536 ≡ n
    → copy_bytes n k 0 buf src ≡ ok buf'
    → (do
      (rdata, len) ← run
      there ← copy_bytes (data_length len) rdata 0 buf src
      use_data there (data_length len))
      ≡ use_data buf' n
copy_then run k buf buf' n src use_data e e' e'' = rw (e, e', e'')

module _ (fuel : ℕ) (url dest name : Memory) (front : List Text) (m : Text) (ms : List Text)
    (all : AllLabels (front ++ m ∷ ms)) (s : Stored url 0 (dotted (front ++ m ∷ ms) ++ 0 ∷ 0 ∷ []))
    (in_url : length (dotted (front ++ m ∷ ms)) + 2 ≤ url.size)
    (t : Stored name 0 (dotted (m ∷ ms) ++ 0 ∷ []))
    (in_name : length (dotted (m ∷ ms)) < name.size) where
  -- The comparison finds the beginning of the question's name.
  pub suffix_pos-labels :
      suffix_pos url.at name.at (length (dotted (front ++ m ∷ ms))) (length (dotted (m ∷ ms))) none
      ≡ some 0
  suffix_pos-labels =
      let n = length (lead front) in
      let whole : length (dotted (front ++ m ∷ ms)) ≡ length (dotted (m ∷ ms)) + n = omega (
        arith,
        ap length (dotted-append front m ms),
        length-append {0} (lead front) (dotted (m ∷ ms)),
      ) in
      let text : Stored url 0 (lead front ++ (dotted (m ∷ ms) ++ 0 ∷ 0 ∷ [])) =
        rw (dotted-append front m ms, append_assoc (lead front) (dotted (m ∷ ms)) (0 ∷ 0 ∷ [])) at
          s in
      let (_, end) =
        Stored-split url 0 n (lead front) (dotted (m ∷ ms) ++ 0 ∷ 0 ∷ []) (omega arith) text in
      let (here, _) =
        Stored-split url n (n + length (dotted (m ∷ ms))) (dotted (m ∷ ms)) (0 ∷ 0 ∷ []) refl end in
      let (there, _) =
        Stored-split name 0 (length (dotted (m ∷ ms))) (dotted (m ∷ ms)) (0 ∷ []) (omega arith) t in
      suffix_pos-whole url.at name.at n (length (dotted (front ++ m ∷ ms)))
        (length (dotted (m ∷ ms))) none whole
        (omega (arith, length-le-dotted m ms (AllLabels-back front (m ∷ ms) all)))
        (λ k h.
          let place : n + k ≡ k + n = omega arith in
          let place' : 0 + k ≡ k = omega arith in
          rw (place, place') at (Stored-agree url name n 0 (dotted (m ∷ ms)) here there k h))

  -- `urlFormat` for CNAME or NS, of a name that ends in all of the question's name: its own labels,
  -- and a pointer to the question's name behind the header.
  pub url_format-own :
      (v4 v6 : Family) (mode addition : ℕ)
      → ((mode == type_cname) || (mode == type_ns)) ≡ true
      → length (wire (front ++ m ∷ ms)) ≤ dest.size
      → length (wire (front ++ m ∷ ms)) + 2 < fuel
      → (k : Memory) × (url_format v4 v6 fuel mode url dest name 49164 addition
          ≡ ok (k, some (length (body front) + 2)))
        × Stored k 0 (body front ++ pointer_bytes 12)
        × (k.size ≡ dest.size)
  unfolding url_format
  url_format-own v4 v6 mode addition named in_dest f =
      let long = length-dotted_append front m ms in
      let whole = length-dotted_append [] m ms in
      let whole' : length (wire (front ++ m ∷ ms)) ≡ length (body front) + length (wire (m ∷ ms)) =
        ap length (wire-append front (m ∷ ms)) ∙ length-append (body front) (wire (m ∷ ms)) in
      let ((k, len), run, (stored, size, _, total)) =
        format_url_name-pointer fuel url dest 0 name 49164 0 front [] m ms all
          (AllLabels-back front (m ∷ ms) all) s in_url t in_name (omega arith) (omega (arith, long))
          (omega (arith, long, whole, whole')) suffix_pos-labels in
      let len' : len ≡ length (body front) + 2 = omega (arith, total) in
      (k, rw (run, len') (ground (arith, named)), stored, size)

  module _ (v4 v6 : Family) (buf : Memory) (src mode addition : ℕ) (temp out : Memory)
      (named : ((mode == type_cname) || (mode == type_ns)) ≡ true) (small : dest.size ≡ 255)
      (in_dest : length (wire (front ++ m ∷ ms)) ≤ dest.size)
      (bytes : IsBytes buf 12 (length (wire (m ∷ ms)))) (question : Stored buf 12 (wire (m ∷ ms)))
      (behind : 12 + length (wire (m ∷ ms)) ≤ src)
      (in_src : src + length (body front) + 2 ≤ buf.size)
      (in_temp : length (wire (front ++ m ∷ ms)) ≤ temp.size)
      (in_out : length (dotted (front ++ m ∷ ms)) < out.size)
      (f : length (wire (front ++ m ∷ ms)) + 2 < fuel) where
    -- `urlFormat` for CNAME or NS, into 255 bytes, of a string with a further 0 behind its final 0,
    -- whose name ends in all of the question's name and has a wire form of at most 255 bytes; the
    -- question's name stands in the packet at 12, and the data are copied into the packet at `src`,
    -- behind it and inside the packet; then `urlParse` of these data, with room for the wire form and
    -- for the string, and fuel above the length of the wire form and two: no fault, and the string
    -- that was formatted.
    pub url_parse-url_format :
        Returns
          (do
            (rdata, len) ← url_format v4 v6 fuel mode url dest name 49164 addition
            buf' ← copy_bytes (data_length len) rdata 0 buf src
            url_parse v4 v6 fuel mode buf' src (data_length len) temp out)
          λ (k, addition'). Stored k 0 (dotted (front ++ m ∷ ms) ++ 0 ∷ []) × (addition' ≡ none)
    url_parse-url_format =
        let n = length (body front) in
        let whole' : length (wire (front ++ m ∷ ms)) ≡ n + length (wire (m ∷ ms)) =
          ap length (wire-append front (m ∷ ms)) ∙ length-append (body front) (wire (m ∷ ms)) in
        let own = AllLabels-back front (m ∷ ms) all in
        let other = length-others (m ∷ ms) own in
        let (rdata, run, stored, size) = url_format-own v4 v6 mode addition named in_dest f in
        let sum : length (body front ++ pointer_bytes 12) ≡ n + 2 =
          length-append (body front) (pointer_bytes 12) in
        let len' : (n + 2) % 65536 ≡ n + 2 = omega (arith, whole', small, other) in
        let (buf', copied, (placed, same)) =
          copy_bytes-Stored (body front ++ pointer_bytes 12) rdata 0 buf src stored
            (omega (arith, sum, size, whole', other)) (omega (arith, sum)) in
        let copied' : copy_bytes (n + 2) rdata 0 buf src ≡ ok buf' = rw sum at copied in
        let question' =
          Stored-frame buf buf' 12 (wire (m ∷ ms)) question (λ i h j. same.below i (omega arith)) in
        let (k, parsed, text) =
          url_parse-pointer buf' fuel src temp out front m ms 12
            (AllLabels-front front (m ∷ ms) all) own (omega arith) placed (omega (arith, same.size))
            (λ i h j. ground (arith, bytes i, same.below i)) question' (omega (arith, same.size))
            in_temp in_out f v4 v6 mode named in
        let joined =
          copy_then (url_format v4 v6 fuel mode url dest name 49164 addition) rdata buf buf' (n + 2)
            src (λ there len. url_parse v4 v6 fuel mode there src len temp out) run len' copied' in
        (k, joined ∙ parsed, text)
