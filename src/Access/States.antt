-- ===== src/Access/States.antt =====
-- iperf3-server/src/protocol.rs: `State`, the byte by which the two ends of a test tell its phase. An
-- `i8` is read as a `u8`, so that -1 and -2 are 255 and 254.
use netpoke.Prelude.{
  ℕ, ◌≡◌, ◌↔◌, refl, sym, ap, ◌∙◌, Option, none, some, arith, ◌==◌, if◌then◌else◌,
}

pub data State : Type 0 where
  param_exchange create_streams test_start test_running test_end exchange_results : State
  display_results iperf_done server_terminate access_denied server_error : State

unfoldable pub from_byte : ℕ → Option State
from_byte b =
    if b == 9
    then some param_exchange
    else if b == 10
    then some create_streams
    else if b == 1
    then some test_start
    else if b == 2
    then some test_running
    else if b == 4
    then some test_end
    else if b == 13
    then some exchange_results
    else if b == 14
    then some display_results
    else if b == 16
    then some iperf_done
    else if b == 15
    then some server_terminate
    else if b == 255
    then some access_denied
    else if b == 254
    then some server_error
    else none

unfoldable pub to_byte : State → ℕ
to_byte param_exchange = 9
to_byte create_streams = 10
to_byte test_start = 1
to_byte test_running = 2
to_byte test_end = 4
to_byte exchange_results = 13
to_byte display_results = 14
to_byte iperf_done = 16
to_byte server_terminate = 15
to_byte access_denied = 255
to_byte server_error = 254

from_byte-to_byte : (s : State) → from_byte (to_byte s) ≡ some s
unfolding from_byte to_byte
from_byte-to_byte param_exchange = refl
from_byte-to_byte create_streams = refl
from_byte-to_byte test_start = refl
from_byte-to_byte test_running = refl
from_byte-to_byte test_end = refl
from_byte-to_byte exchange_results = refl
from_byte-to_byte display_results = refl
from_byte-to_byte iperf_done = refl
from_byte-to_byte server_terminate = refl
from_byte-to_byte access_denied = refl
from_byte-to_byte server_error = refl

to_byte-from_byte : (b : ℕ) (s : State) → from_byte b ≡ some s → to_byte s ≡ b
unfolding from_byte to_byte
to_byte-from_byte b s h = ground arith

-- A byte is read as a state just if the state is written as that byte: no state is lost on the wire,
-- and no two share a byte.
pub from_byte_iff : (b : ℕ) (s : State) → (from_byte b ≡ some s) ↔ (to_byte s ≡ b)
from_byte_iff b s = (to_byte-from_byte b s, λ h. ap from_byte (sym h) ∙ from_byte-to_byte s)
