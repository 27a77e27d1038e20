-- ===== src/Udp/Trial.antt =====
-- daemon/src/udp/UdpCongestionManager.ts: class TrialData, the counts of one trial.
-- Rates and latencies are fractions where the source has floating-point numbers; rounding is not
-- modelled, and the speed-up factor of the tests is 1. A Map from packets to true is a set.
use kachery_p2p.Base.{
  ℕ, ◌+◌, ◌-◌, ◌*◌, ◌/◌, ◌%◌, Bool, true, List, [], ◌∷◌, ◌++◌, none, some, String, length,
  get_elem?, ltb, leb, if◌then◌else◌, ◌==◌, nat_eq, string_eq,
}
use kachery_p2p.Base.Maps

pub record Ratio : Type 0 where
  pub num : ℕ
  pub den : ℕ

abbrev pub whole : ℕ → Ratio
whole n = record { num = n; den = 1 }

abbrev pub ratio_ltb : Ratio → Ratio → Bool
ratio_ltb a b = ltb (a.num * b.den) (b.num * a.den)

pub record TrialData : Type 0 where
  pub timestamp_started : ℕ
  pub sent_packet_internal_ids : List (String × Bool)
  pub num_sent_packets : ℕ
  pub num_sent_bytes : ℕ
  pub num_confirmed_packets : ℕ
  pub num_confirmed_bytes : ℕ
  pub num_timed_out_packets : ℕ
  pub num_timed_out_bytes : ℕ
  pub num_error_packets : ℕ
  pub num_error_bytes : ℕ
  pub roundtrip_latencies_msec : List ℕ
  pub peak_num_unconfirmed_bytes : ℕ

-- The state after `reset`, which nothing of the state before goes into.
unfoldable pub reset : (now : ℕ) → TrialData
reset now = record {
  timestamp_started = now;
  sent_packet_internal_ids = [];
  num_sent_packets = 0;
  num_sent_bytes = 0;
  num_confirmed_packets = 0;
  num_confirmed_bytes = 0;
  num_timed_out_packets = 0;
  num_timed_out_bytes = 0;
  num_error_packets = 0;
  num_error_bytes = 0;
  roundtrip_latencies_msec = [];
  peak_num_unconfirmed_bytes = 0;
}

unfoldable pub compute_num_unconfirmed_bytes : TrialData → ℕ
compute_num_unconfirmed_bytes t =
    t.num_sent_bytes - t.num_confirmed_bytes - t.num_timed_out_bytes - t.num_error_bytes

unfoldable pub report_sent : TrialData → (internal_id : String) (packet_size : ℕ) → TrialData
report_sent t id size =
    let sent = record t {
      num_sent_packets = t.num_sent_packets + 1;
      num_sent_bytes = t.num_sent_bytes + size;
      sent_packet_internal_ids = Maps.set id true t.sent_packet_internal_ids;
    } in
    let u = compute_num_unconfirmed_bytes sent in
    if ltb t.peak_num_unconfirmed_bytes u
    then record sent { peak_num_unconfirmed_bytes = u }
    else sent

unfoldable pub report_confirmed :
    TrialData → (internal_id : String) (packet_size latency : ℕ) → TrialData
report_confirmed t id size latency =
    if Maps.has id t.sent_packet_internal_ids
    then record t {
      num_confirmed_packets = t.num_confirmed_packets + 1;
      num_confirmed_bytes = t.num_confirmed_bytes + size;
      roundtrip_latencies_msec = t.roundtrip_latencies_msec ++ latency ∷ [];
    }
    else t

unfoldable pub report_timed_out : TrialData → (internal_id : String) (packet_size : ℕ) → TrialData
report_timed_out t id size =
    if Maps.has id t.sent_packet_internal_ids
    then record t {
      num_timed_out_packets = t.num_timed_out_packets + 1;
      num_timed_out_bytes = t.num_timed_out_bytes + size;
    }
    else t

unfoldable pub report_error : TrialData → (internal_id : String) (packet_size : ℕ) → TrialData
report_error t id size =
    if Maps.has id t.sent_packet_internal_ids
    then record t {
      num_error_packets = t.num_error_packets + 1;
      num_error_bytes = t.num_error_bytes + size;
    }
    else t

-- `values.sort`
unfoldable pub insert : ℕ → List ℕ → List ℕ
insert x [] = x ∷ []
insert x (y ∷ ys) = if leb x y then x ∷ y ∷ ys else y ∷ insert x ys

unfoldable pub sort : List ℕ → List ℕ
sort [] = []
sort (x ∷ xs) = insert x (sort xs)

-- An element of an array, where there is one.
abbrev pub at : List ℕ → ℕ → ℕ
at xs i = elim (get_elem? xs i) [ none ↦ 0 | some x ↦ x ]

unfoldable pub median : List ℕ → Ratio
median xs =
    let values = sort xs in
    let half = length values / 2 in
    if length values % 2 == 0
    then record { num = at values (half - 1) + at values half; den = 2 }
    else whole (at values half)

-- `median * 0.3 + old * 0.7`
abbrev pub weighted : Ratio → Ratio → Ratio
weighted new old = record {
  num = 3 * (new.num * old.den) + 7 * (old.num * new.den);
  den = 10 * (new.den * old.den);
}

abbrev pub at_least : Ratio → Ratio → Ratio
at_least low r = if ratio_ltb r low then low else r

abbrev pub at_most : Ratio → Ratio → Ratio
at_most high r = if ratio_ltb high r then high else r

unfoldable pub estimate_roundtrip_latency : TrialData → Ratio → Ratio
estimate_roundtrip_latency t old =
    if ltb (length t.roundtrip_latencies_msec) 5
    then old
    else at_most (whole 1000)
        (at_least (whole 20) (weighted (median t.roundtrip_latencies_msec) old))

-- Whether the lost bytes are less than one in `n` of those sent.
abbrev pub lost_less_than : ℕ → TrialData → Bool
lost_less_than n t = ltb (n * (t.num_sent_bytes - t.num_confirmed_bytes)) t.num_sent_bytes

-- Whether the peak of the unconfirmed bytes is more than 0.6 of those at full load.
abbrev pub was_limited : TrialData → (rate latency : Ratio) → Bool
was_limited t rate latency =
    ltb (3 * (rate.num * latency.num))
      (5000 * t.peak_num_unconfirmed_bytes * (rate.den * latency.den))

abbrev pub faster : Ratio → Ratio
faster r = record { num = r.num * 6; den = r.den * 5 }

abbrev pub slower : Ratio → Ratio
slower r = record { num = r.num * 5; den = r.den * 6 }

abbrev pub lowest_rate : Ratio
lowest_rate = whole (1 * 1000 * 1000)

-- The new rate before it is kept from getting too low: the lost fraction is compared to 0.02.
abbrev pub adjusted_rate : TrialData → (old latency : Ratio) → Ratio
adjusted_rate t old latency =
    if lost_less_than 50 t
    then if was_limited t old latency then faster old else old
    else slower old

unfoldable pub determine_max_num_bytes_per_second_to_send :
    TrialData → (old latency : Ratio) → Ratio
determine_max_num_bytes_per_second_to_send t old latency =
    if ltb t.num_sent_bytes (10 * 1000)
    then old
    else if lost_less_than 5 t
    then at_least lowest_rate (adjusted_rate t old latency)
    else adjusted_rate t old latency
