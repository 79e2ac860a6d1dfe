-- ===== src/Iperf/Framing.antt =====
-- The messages on the control connection.
use netpoke.Prelude.{
  ℕ, ◌%◌, ◌^◌, ◌≤◌, ◌<◌, ◌≡◌, refl, ap, ◌∙◌, true, false, Option, List, ◌++◌, arith, ltb,
  if◌then◌else◌, length, length-append, append_assoc, take-append_length, drop-append_length,
}
use netpoke.Iperf.{
  TestSession, Outcome, done, failed, and_then, read_exact, max_message_size, be_value, be_octets,
  parsed, read_json_message, write_json_message, write_all,
}

-- A message as it stands on the wire.
abbrev pub frame : List ℕ → List ℕ
frame octets = be_octets (length octets) ++ octets

abbrev pub at : List ℕ → TestSession → TestSession
at incoming s = record s { incoming = incoming }

pub read_exact-append :
    (octets rest : List ℕ) (s : TestSession)
    → read_exact (length octets) (at (octets ++ rest) s) ≡ done octets (at rest s)
unfolding read_exact
read_exact-append octets rest s =
    let long : ltb (length (octets ++ rest)) (length octets) ≡ false =
      ground (arith, length-append octets rest) in
    simp long (simp (take-append_length octets rest) (simp (drop-append_length octets rest) refl))

be_value-be_octets : (n : ℕ) → n < 2 ^ 32 → be_value (be_octets n) ≡ n
be_value-be_octets n h = omega arith

-- The body of a message, behind its length.
abbrev body : {A : Type 0} → (List ℕ → Option A) → ℕ → TestSession → Outcome A
body from_slice n s =
    if ltb max_message_size n
    then failed s
    else and_then (read_exact n s) (λ octets s. parsed (from_slice octets) s)

body-append :
    {A : Type 0} (from_slice : List ℕ → Option A) (octets rest : List ℕ) (s : TestSession)
    → length octets ≤ 1048576
    → body from_slice (length octets) (at (octets ++ rest) s)
      ≡ parsed (from_slice octets) (at rest s)
unfolding and_then
body-append from_slice octets rest s h =
    let small : ltb max_message_size (length octets) ≡ false = ground arith in
    simp small (rw (read_exact-append octets rest s) refl)

-- What `write_json_message` puts on the wire, `read_json_message` takes from it whole and no octet
-- more, and parses, if it has at most 1 MB.
pub read_json_message-write_json_message :
    {A : Type 0} (from_slice : List ℕ → Option A) (octets rest : List ℕ) (s r : TestSession)
    → length octets ≤ 1048576
    → ((write_json_message octets s).sent ≡ s.sent ++ frame octets)
      × (read_json_message from_slice (at (frame octets ++ rest) r)
          ≡ parsed (from_slice octets) (at rest r))
unfolding read_json_message write_json_message write_all and_then
read_json_message-write_json_message from_slice octets rest s r h =
    let whole : length octets % 2 ^ 32 ≡ length octets = omega arith in
    let value : be_value (be_octets (length octets)) ≡ length octets =
      be_value-be_octets (length octets) (omega arith) in
    (
      rw whole (append_assoc s.sent (be_octets (length octets)) octets),
      rw (read_exact-append (be_octets (length octets)) (octets ++ rest) r) (
          ap (λ n. body from_slice n (at (octets ++ rest) r)) value
          ∙ body-append from_slice octets rest r h),
    )

-- A message that announces more than 1 MB is refused, once its length is read.
pub read_json_message_large :
    {A : Type 0} (from_slice : List ℕ → Option A) (n : ℕ) (rest : List ℕ) (s : TestSession)
    → 1048576 < n
    → n < 2 ^ 32
    → read_json_message from_slice (at (be_octets n ++ rest) s) ≡ failed (at rest s)
unfolding read_json_message and_then
read_json_message_large from_slice n rest s l h =
    let large : ltb max_message_size n ≡ true = ground arith in
    rw (read_exact-append (be_octets n) rest s)
      (ap (λ n. body from_slice n (at rest s)) (be_value-be_octets n h) ∙ rw large refl)
