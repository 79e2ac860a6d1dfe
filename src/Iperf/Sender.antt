-- ===== src/Iperf/Sender.antt =====
-- iperf3-server/src/session.rs: one task of `start_sender_background`, which sends blocks of zeros on
-- one stream. A turn of its loop has the time in nanoseconds (one for the clock reads of the turn),
-- the flag `cancelled` and the result of `write_all` as arguments. The counters do not wrap here: a
-- `u64` of octets is not reached.
use netpoke.Prelude.{
  ℕ, suc, ◌+◌, ◌-◌, ◌*◌, ◌/◌, ◌^◌, ◌≤◌, ◌<◌, ◌≡◌, Bool, true, false, ◌||◌, Bool-cases, inl, inr,
  List, [], ◌∷◌, arith, ltb, leb, ◌==◌, if◌then◌else◌,
}

-- What the task reads in one turn.
pub record Turn : Type 0 where
  pub now : ℕ
  pub cancelled : Bool
  pub written : Bool

pub record Sender : Type 0 where
  pub last_send : ℕ
  pub bytes_this_second : ℕ
  pub bytes_sent : ℕ

abbrev pub second : ℕ
second = 1000000000

-- A bandwidth of 0 is none: `u64::MAX`.
unfoldable pub bytes_per_second : ℕ → ℕ
bytes_per_second bandwidth = if ltb 0 bandwidth then bandwidth / 8 else 2 ^ 64 - 1

-- The block is written.
abbrev pub send_block : ℕ → Sender → Sender
send_block blksize s = record s {
  bytes_this_second = s.bytes_this_second + blksize;
  bytes_sent = s.bytes_sent + blksize;
}

-- A new second begins.
abbrev pub restart : ℕ → Sender → Sender
restart now s = record s { last_send = now; bytes_this_second = 0 }

-- The loop over the turns that the task gets.
unfoldable pub send_all : ℕ → ℕ → ℕ → List Turn → Sender → Sender
send_all limit blksize deadline [] s = s
send_all limit blksize deadline (t ∷ turns) s =
    let fresh = send_all limit blksize deadline turns (send_block blksize (restart t.now s)) in
    let again = send_all limit blksize deadline turns (send_block blksize s) in
    let slept = send_all limit blksize deadline turns s in
    if t.cancelled || ltb deadline t.now
    then s
    else if limit == 2 ^ 64 - 1
    then (if t.written then again else s)
    else if leb second (t.now - s.last_send)
    then (if t.written then fresh else restart t.now s)
    else if leb limit s.bytes_this_second
    then slept
    else if t.written
    then again
    else s

-- Windows of a second that began after the start, each with its share.
abbrev IsPaced : ℕ → ℕ → ℕ → Sender → Type 0
IsPaced start share windows s =
    (start + second * windows ≤ s.last_send)
    × (s.bytes_sent ≤ windows * share + s.bytes_this_second)
    × (s.bytes_this_second ≤ share)

-- The times of the turns are in order, up to the last.
abbrev pub IsOrdered : ℕ → List Turn → ℕ → Type 0
IsOrdered from [] last = from ≤ last
IsOrdered from (t ∷ turns) last = (from ≤ t.now) × IsOrdered t.now turns last

stopped :
    (start share windows last : ℕ) (s : Sender)
    → IsPaced start share windows s
    → s.last_send ≤ last
    → (n : ℕ) × (start + second * n ≤ last) × (s.bytes_sent ≤ (n + 1) * share)
stopped start share windows last s p l = (windows, omega (arith, p.0), omega (arith, p.1, p.2))

IsOrdered-le : (from : ℕ) (turns : List Turn) (last : ℕ) → IsOrdered from turns last → from ≤ last
IsOrdered-le from [] last o = o
IsOrdered-le from (t ∷ turns) last o = omega (arith, o.0, IsOrdered-le t.now turns last o.1)

-- A window ends when a second is over.
restarted :
    (start share windows now : ℕ) (s : Sender)
    → s.last_send + second ≤ now
    → IsPaced start share windows s
    → IsPaced start share (suc windows) (restart now s)
restarted start share windows now s l p = (omega (arith, p.0), omega (arith, p.1, p.2), omega arith)

sent-IsPaced :
    (start limit blksize windows : ℕ) (s : Sender)
    → s.bytes_this_second ≤ limit
    → IsPaced start (limit + blksize) windows s
    → IsPaced start (limit + blksize) windows (send_block blksize s)
sent-IsPaced start limit blksize windows s l p = (p.0, omega (arith, p.1), omega arith)

paced :
    (limit blksize deadline start windows from last : ℕ) (turns : List Turn) (s : Sender)
    → (limit == 2 ^ 64 - 1) ≡ false
    → s.last_send ≤ from
    → IsOrdered from turns last
    → IsPaced start (limit + blksize) windows s
    → (n : ℕ) × (start + second * n ≤ last)
      × ((send_all limit blksize deadline turns s).bytes_sent ≤ (n + 1) * (limit + blksize))
unfolding send_all
paced limit blksize deadline start windows from last [] s b l o p =
    stopped start (limit + blksize) windows last s p (omega (arith, l, o))
paced limit blksize deadline start windows from last (t ∷ turns) s b l o p =
    let share = limit + blksize in
    let end = IsOrdered-le from (t ∷ turns) last o in
    let latest = IsOrdered-le t.now turns last o.1 in
    elim (Bool-cases (t.cancelled || ltb deadline t.now)) [
      | inl e ↦ rw e (stopped start share windows last s p (omega (arith, l, end)))
      | inr e ↦ rw e (
          rw b (elim (Bool-cases (leb second (t.now - s.last_send))) [
            | inl f ↦
                let over : s.last_send + second ≤ t.now = ground arith in
                let begun = restarted start share windows t.now s over p in
                rw f (elim (Bool-cases t.written) [
                  | inr g ↦
                      rw g (stopped start share (suc windows) last (restart t.now s) begun latest)
                  | inl g ↦ rw g (
                      paced limit blksize deadline start (suc windows) t.now last turns
                        (send_block blksize (restart t.now s)) b (omega arith) o.1
                        (sent-IsPaced start limit blksize (suc windows) (restart t.now s)
                          (omega arith) begun))
                ])
            | inr f ↦ rw f (elim (Bool-cases (leb limit s.bytes_this_second)) [
              | inl g ↦ rw g (
                  paced limit blksize deadline start windows t.now last turns s b
                    (omega (arith, l, o.0)) o.1 p)
              | inr g ↦ rw g (elim (Bool-cases t.written) [
                | inr k ↦ rw k (stopped start share windows last s p (omega (arith, l, end)))
                | inl k ↦ rw k (
                    paced limit blksize deadline start windows t.now last turns
                      (send_block blksize s) b (omega (arith, l, o.0)) o.1
                      (sent-IsPaced start limit blksize windows s (ground arith) p))
              ])
            ])
          ]))
    ]

mul_le_of : (n m q : ℕ) → n ≤ m → n * q ≤ m * q
mul_le_of n m q h = grind arith

-- With a bandwidth other than 0, a task that begins at `start` and whose turns are in the order of time up to `last` has sent,
-- for each second that began in that time, at most an eighth of the bandwidth and one block more.
pub send_all-bytes_sent_le :
    (bandwidth blksize deadline start last : ℕ) (turns : List Turn)
    → 1 ≤ bandwidth
    → bandwidth < 2 ^ 64
    → IsOrdered start turns last
    → (send_all
        (bytes_per_second bandwidth)
        blksize
        deadline
        turns
        (record { last_send = start; bytes_this_second = 0; bytes_sent = 0 })).bytes_sent
      ≤ ((last - start) / 1000000000 + 1) * (bandwidth / 8 + blksize)
unfolding bytes_per_second
send_all-bytes_sent_le bandwidth blksize deadline start last turns p b o =
    let given : ltb 0 bandwidth ≡ true = ground arith in
    let (n, l, h) =
      paced (bandwidth / 8) blksize deadline start 0 start last turns
        (record { last_send = start; bytes_this_second = 0; bytes_sent = 0 }) (ground arith)
        (omega arith) o (omega arith, omega arith, omega arith) in
    let whole : n ≤ (last - start) / 1000000000 = omega arith in
    rw given (
      omega (
        arith,
        h,
        mul_le_of (n + 1) ((last - start) / 1000000000 + 1) (bandwidth / 8 + blksize) (omega arith),
      ))
