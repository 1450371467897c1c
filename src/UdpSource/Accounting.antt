-- ===== src/UdpSource/Accounting.antt =====
-- engine/UdpSource.hpp: the counters of the feed, whatever the socket delivers.
use odds_engine.Base.{ℕ, ◌+◌, ◌%◌, ◌^◌, ◌≤◌, ◌<◌, ◌≡◌, refl, ◌∙◌, List, [], ◌∷◌, arith, take}
use odds_engine.Base.Bytes.{Bytes}
use odds_engine.Wire.{max_datagram_bytes, records_per_datagram}
use odds_engine.BookTable.{increment}
use odds_engine.UdpSource.{
  UdpSource, data_kind, is_well_formed, account, read_bytes, Received, idle, reconfigured, batch,
  receive_one, Next, got, ended, thrown, out_of_fuel, next,
}

-- The two sides of the feed's books: numbers passed over or seen late, against datagrams and losses.
abbrev pub passed : UdpSource → ℕ
passed s = s.expected_seq + s.reordered

abbrev pub seen : UdpSource → ℕ
seen s = s.datagrams + s.lost

-- From `s` to `s'` the two sides grew alike, in 64-bit arithmetic.
abbrev pub Balanced : UdpSource → UdpSource → Type 0
Balanced s s' = (passed s' + seen s) % 2 ^ 64 ≡ (passed s + seen s') % 2 ^ 64

-- Reading moves the accounts alike, hands out no record and keeps the feed's shape.
abbrev pub Progress : UdpSource → UdpSource → Type 0
Progress s s' = Balanced s s' × (s'.records ≡ s.records) × (s'.header ≡ s.header)

Progress-trans : (s t u : UdpSource) → Progress s t → Progress t u → Progress s u
Progress-trans s t u h k = (omega arith, k.1 ∙ h.1, k.2 ∙ h.2)

read_bytes-Progress : (d : Bytes) (s : UdpSource) → Progress s (read_bytes d s).1
unfolding read_bytes account
read_bytes-Progress d s = (ground arith, ground arith, ground arith)

-- A datagram that is taken as data has at least one record and at most 16.
pub read_bytes_count :
    (d : Bytes) (s : UdpSource)
    → (read_bytes d s).0 ≡ data_kind
    → (0 < (read_bytes d s).1.last_count) × ((read_bytes d s).1.last_count ≤ records_per_datagram)
unfolding read_bytes account is_well_formed
read_bytes_count d s h = ground arith

-- Where a result of `receive_one` from `s` may stand.
abbrev pub AfterReceive : UdpSource → Received → Type 0
AfterReceive s (idle s') = Progress s s'
AfterReceive s reconfigured = Unit
AfterReceive s (batch s' ds) =
    Progress s s' × (s'.cursor ≡ 0) × (0 < s'.in_buffer) × (s'.in_buffer ≤ records_per_datagram)

AfterReceive-trans :
    (s t : UdpSource) (r : Received) → Progress s t → AfterReceive t r → AfterReceive s r
AfterReceive-trans s t (idle s') h a = Progress-trans s t s' h a
AfterReceive-trans s t reconfigured h a = tt
AfterReceive-trans s t (batch s' ds) h a = (Progress-trans s t s' h a.0, a.1, a.2, a.3)

pub receive_one-AfterReceive : (ds : List Bytes) (s : UdpSource) → AfterReceive s (receive_one ds s)
unfolding receive_one
receive_one-AfterReceive [] s = (refl, refl, refl)
receive_one-AfterReceive (d ∷ ds) s =
    let d' : Bytes = take max_datagram_bytes d in
    let (k, s') = read_bytes d' s in
    let t : UdpSource = record s' { announces = increment s'.announces } in
    let b = read_bytes-Progress d' s in
    let skip = AfterReceive-trans s s' (receive_one ds s') b (receive_one-AfterReceive ds s') in
    let again = AfterReceive-trans s t (receive_one ds t) b (receive_one-AfterReceive ds t) in
    ground (arith, read_bytes_count d' s, b, skip, again)

abbrev pub AfterNext : UdpSource → Next → Type 0
AfterNext s (got u s' ds) =
    Balanced s s' × (s'.records ≡ increment s.records) × (s'.header ≡ s.header)
AfterNext s (ended s') = Progress s s'
AfterNext s thrown = Unit
AfterNext s out_of_fuel = ⊥

-- Two rounds are enough for `next`. Whatever the socket delivers: a call that hands out a record
-- counts one record and a call that ends counts none, the shape of the feed stays, and the sequence
-- numbers passed over or seen late grow by as much as the datagrams and the losses.
pub next-AfterNext : (ds : List Bytes) (s : UdpSource) → AfterNext s (next ds s)
unfolding next
next-AfterNext ds s = ground (arith, receive_one-AfterReceive ds s)
