-- ===== src/Nodes/Broadcast/Finishing.antt =====
-- sendRequestToAllNodes over every history of responses, errors and timers: how it finishes.
use kachery_p2p.Base.{
  ℕ, zero, suc, ◌+◌, ◌≡◌, refl, ◌⊎◌, inl, inr, Bool, true, false, List, [], ◌∷◌, ◌++◌, String,
  arith, if◌then◌else◌, nat_eq, Bool-cases,
}
use kachery_p2p.Json.{Value}
use kachery_p2p.Nodes.Manager.{RemoteNodeManager}
use kachery_p2p.Nodes.Broadcast.{
  Notice, response, error_response, all_finished, Broadcast, send_request_to_all_nodes, finalize,
  complete_one, on_response, on_error, fire_finalize_timer,
}

-- What happens: the answer of a node, its error, a timer of the last answer, the timeout or a cancellation.
pub data Event : Type 0 where
  responds : (node_id : String) → Value → Event
  fails : (node_id : String) → Event
  fires times_out : Event

unfoldable pub step : Broadcast → Event → Broadcast
step b (responds id x) = on_response id x b
step b (fails id) = on_error id b
step b fires = fire_finalize_timer b
step b times_out = finalize b

unfoldable pub run : Broadcast → List Event → Broadcast
run b [] = b
run b (e ∷ es) = run (step b e) es

-- How often the callbacks are told of the end, and of responses that come after it.
abbrev pub count_ends : List Notice → ℕ
count_ends [] = 0
count_ends (all_finished ∷ ns) = suc (count_ends ns)
count_ends (response id x ∷ ns) = count_ends ns
count_ends (error_response id ∷ ns) = count_ends ns

abbrev pub responses_after_end : (ended : Bool) → List Notice → ℕ
responses_after_end ended [] = 0
responses_after_end ended (all_finished ∷ ns) = responses_after_end true ns
responses_after_end ended (response id x ∷ ns) =
    let rest = responses_after_end ended ns in if ended then suc rest else rest
responses_after_end ended (error_response id ∷ ns) = responses_after_end ended ns

abbrev pub adds : Notice → ℕ
adds all_finished = 1
adds _ = 0

count_ends-append :
    (ns : List Notice) (n : Notice) → count_ends (ns ++ n ∷ []) ≡ count_ends ns + adds n
count_ends-append [] all_finished = refl
count_ends-append [] (response id x) = refl
count_ends-append [] (error_response id) = refl
count_ends-append (all_finished ∷ ns) n = omega (arith, count_ends-append ns n)
count_ends-append (response id x ∷ ns) n = count_ends-append ns n
count_ends-append (error_response id ∷ ns) n = count_ends-append ns n

-- A notice that is no response, or that comes before any end, adds no response after the end.
after_end_error :
    (ended : Bool) (ns : List Notice) (id : String)
    → responses_after_end ended (ns ++ error_response id ∷ []) ≡ responses_after_end ended ns
after_end_error ended [] id = refl
after_end_error ended (all_finished ∷ ns) id = after_end_error true ns id
after_end_error ended (response j x ∷ ns) id = ground (arith, after_end_error ended ns id)
after_end_error ended (error_response j ∷ ns) id = after_end_error ended ns id

after_end_finished :
    (ended : Bool) (ns : List Notice)
    → responses_after_end ended (ns ++ all_finished ∷ []) ≡ responses_after_end ended ns
after_end_finished ended [] = refl
after_end_finished ended (all_finished ∷ ns) = after_end_finished true ns
after_end_finished ended (response j x ∷ ns) = ground (arith, after_end_finished ended ns)
after_end_finished ended (error_response j ∷ ns) = after_end_finished ended ns

after_end_response :
    (ns : List Notice) (id : String) (x : Value)
    → count_ends ns ≡ 0
    → responses_after_end false (ns ++ response id x ∷ []) ≡ responses_after_end false ns
after_end_response [] id x h = refl
after_end_response (all_finished ∷ ns) id x h = absurd (omega (arith, h))
after_end_response (response j y ∷ ns) id x h = after_end_response ns id x h
after_end_response (error_response j ∷ ns) id x h = after_end_response ns id x h

record IsOrderly (b : Broadcast) : Type 0 where
  ends : count_ends b.notices ≡ (if b.finished then 1 else 0)
  late : responses_after_end false b.notices ≡ 0

finalize-IsOrderly : (b : Broadcast) → IsOrderly b → IsOrderly (finalize b)
unfolding finalize
finalize-IsOrderly b o =
    ground (arith, count_ends-append b.notices all_finished, after_end_finished false b.notices)

fire-IsOrderly :
    (b : Broadcast) (timers : ℕ)
    → b.finalize_timers ≡ timers
    → IsOrderly b
    → IsOrderly (fire_finalize_timer b)
unfolding fire_finalize_timer
fire-IsOrderly b zero h o = rw (h, fire_finalize_timer) o
fire-IsOrderly b (suc n) h o =
    let fired : Broadcast = record b { finalize_timers = n } in
    rw (h, fire_finalize_timer) (finalize-IsOrderly fired (record { ends = o.ends; late = o.late }))

step-IsOrderly : (b : Broadcast) (e : Event) → IsOrderly b → IsOrderly (step b e)
unfolding step on_response on_error complete_one
step-IsOrderly b (responds id x) o =
    ground (arith, count_ends-append b.notices (response id x), after_end_response b.notices id x)
step-IsOrderly b (fails id) o =
    ground
      (arith, count_ends-append b.notices (error_response id), after_end_error false b.notices id)
step-IsOrderly b fires o = fire-IsOrderly b b.finalize_timers refl o
step-IsOrderly b times_out o = finalize-IsOrderly b o

-- What has finished stays so.
fire-finished :
    (b : Broadcast) (timers : ℕ)
    → b.finalize_timers ≡ timers
    → b.finished ≡ true
    → (fire_finalize_timer b).finished ≡ true
unfolding fire_finalize_timer finalize
fire-finished b zero h f = rw (h, fire_finalize_timer) f
fire-finished b (suc n) h f = rw (h, fire_finalize_timer, f) refl

step-finished : (b : Broadcast) (e : Event) → b.finished ≡ true → (step b e).finished ≡ true
unfolding step on_response on_error complete_one finalize
step-finished b (responds id x) f = ground arith
step-finished b (fails id) f = ground arith
step-finished b fires f = fire-finished b b.finalize_timers refl f
step-finished b times_out f = ground arith

run-finished : (b : Broadcast) (es : List Event) → b.finished ≡ true → (run b es).finished ≡ true
unfolding run
run-finished b [] f = f
run-finished b (e ∷ es) f = run-finished (step b e) es (step-finished b e f)

abbrev pub has_timeout : List Event → Bool
has_timeout [] = false
has_timeout (times_out ∷ es) = true
has_timeout (responds id x ∷ es) = has_timeout es
has_timeout (fails id ∷ es) = has_timeout es
has_timeout (fires ∷ es) = has_timeout es

run-has_timeout :
    (b : Broadcast) (es : List Event) → has_timeout es ≡ true → (run b es).finished ≡ true
unfolding run step finalize
run-has_timeout b [] h = absurd (cc h)
run-has_timeout b (times_out ∷ es) h = run-finished (step b times_out) es (ground arith)
run-has_timeout b (responds id x ∷ es) h = run-has_timeout (step b (responds id x)) es h
run-has_timeout b (fails id ∷ es) h = run-has_timeout (step b (fails id)) es h
run-has_timeout b (fires ∷ es) h = run-has_timeout (step b fires) es h

run-IsOrderly : (b : Broadcast) (es : List Event) → IsOrderly b → IsOrderly (run b es)
unfolding run
run-IsOrderly b [] o = o
run-IsOrderly b (e ∷ es) o = run-IsOrderly (step b e) es (step-IsOrderly b e o)

-- A request to all nodes tells its callbacks of the end once at most, whatever the nodes answer, in whatever
-- order; no response is passed on after the end; and they have been told when the timeout has come.
pub finishes_once :
    (m : RemoteNodeManager) (es : List Event)
    → let b = run (send_request_to_all_nodes m) es in
      (count_ends b.notices ≡ (if b.finished then 1 else 0))
      × (responses_after_end false b.notices ≡ 0)
      × ((has_timeout es ≡ false) ⊎ (count_ends b.notices ≡ 1))
unfolding send_request_to_all_nodes
finishes_once m es =
    let start = send_request_to_all_nodes m in
    let o = run-IsOrderly start es (record { ends = refl; late = refl }) in
    (
      o.ends,
      o.late,
      elim (Bool-cases (has_timeout es)) [
        | inl h ↦ inr (ground (arith, o.ends, run-has_timeout start es h))
        | inr h ↦ inl h
      ],
    )
