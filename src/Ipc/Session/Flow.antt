-- ===== src/Ipc/Session/Flow.antt =====
-- Flow control of the worker's streams in crates/yah-plugin-ipc/src/session/streams.rs: the order of
-- the items and the credit that they spend.
use yet_another_harness.Prelude.{
  ℕ, ◌+◌, ◌≡◌, refl, ◌≤◌, ◌==◌, subst, sym, ap, ◌∙◌, ◌⊎◌, inl, inr, Bool, true, false, some, List,
  [], ◌∷◌, arith, Text,
}
use yet_another_harness.Prelude.Map.{lookup, lookup-insert}
use yet_another_harness.Ipc.Types.{CallId, StreamClass, lossless, lossy, StreamData, WireErrorKind}
use yet_another_harness.Ipc.Session.State.{Codec, HostSession, HostCall, is_closed, add_u64}
use yet_another_harness.Ipc.Session.Settle.{fatal}
use yet_another_harness.Ipc.Session.Streams.{
  on_stream_data, on_stream_item, accept_item, take_item, expected_seq, spend_credit,
}
use yet_another_harness.Ipc.Session.Draining.{fatal-closes}
use yet_another_harness.Ipc.Session.Cases.{on_stream_data_cases}

-- A worker's stream items, one after the other.
unfoldable pub receive : Codec → List StreamData → HostSession → HostSession
receive c [] s = s
receive c (item ∷ items) s = receive c items (on_stream_data c item s)

abbrev pub AreOf : CallId → List StreamData → Type 0
AreOf id [] = Unit {0}
AreOf id (item ∷ items) = (item.call_id ≡ id) × AreOf id items

-- The sequence numbers count up from the given one.
abbrev pub AreConsecutive : ℕ → List StreamData → Type 0
AreConsecutive seq [] = Unit {0}
AreConsecutive seq (item ∷ items) = (item.seq ≡ seq) × AreConsecutive (add_u64 seq 1) items

abbrev cost : StreamClass → ℕ
cost lossless = 1
cost lossy = 0

-- How much credit the items spend.
abbrev pub spent : List StreamData → ℕ
spent [] = 0
spent (item ∷ items) = cost item.class + spent items

receive_closed :
    (c : Codec) (items : List StreamData) (s : HostSession)
    → is_closed s.phase ≡ true
    → is_closed (receive c items s).phase ≡ true
unfolding receive accept_item
receive_closed c [] s shut = shut
receive_closed c (item ∷ items) s shut = receive_closed c items (on_stream_data c item s) (
    on_stream_data_cases (λ t. is_closed t.phase ≡ true) c item s
      (λ kind detail. fatal-closes kind detail s) shut (λ state left h. kept item left state))
  where
    kept :
        (item : StreamData) (left : ℕ) (state : HostCall)
        → is_closed (accept_item item left state s).phase ≡ true
    kept item left state = ground arith

-- The call after an item that is taken: what the item did to its credit and its sequence.
record Takes (item : StreamData) (state : HostCall) (t : HostSession) : Type 0 where
  next : HostCall
  found : lookup item.call_id t.host_calls ≡ some next
  seq : item.seq ≡ expected_seq state
  next_seq : expected_seq next ≡ add_u64 item.seq 1
  credit : next.credit_left + cost item.class ≡ state.credit_left

accept_item-Takes :
    (item : StreamData) (left : ℕ) (state : HostCall) (s : HostSession)
    → (item.seq == expected_seq state) ≡ true
    → spend_credit item.class state.credit_left ≡ some left
    → Takes item state (accept_item item left state s)
unfolding accept_item
accept_item-Takes item left state s h paid = record {
  next = taken;
  found = ground (arith, lookup-insert item.call_id item.call_id taken s.host_calls);
  seq = ground (arith, h);
  next_seq = refl;
  credit = ground (arith, paid);
}
  where
    taken : HostCall
    taken = take_item item left state

in_order_cases :
    (P : HostSession → Type 0) (item : StreamData) (state : HostCall) (s : HostSession)
    → ((kind : WireErrorKind) (detail : Text) → P (fatal kind detail s))
    → ((left : ℕ)
        → (item.seq == expected_seq state) ≡ true
        → spend_credit item.class state.credit_left ≡ some left
        → P (accept_item item left state s))
    → P (on_stream_item item state s)
unfolding on_stream_item
in_order_cases P item state s broken taken = grind (arith, broken, taken)

on_stream_data-Takes :
    (c : Codec) (item : StreamData) (state : HostCall) (s : HostSession)
    → lookup item.call_id s.host_calls ≡ some state
    → (is_closed (on_stream_data c item s).phase ≡ true)
      ⊎ Takes item state (on_stream_data c item s)
unfolding on_stream_data
on_stream_data-Takes c item state s live =
    let inner =
      in_order_cases (λ t. (is_closed t.phase ≡ true) ⊎ Takes item state t) item state s
        (λ kind detail. inl (fatal-closes kind detail s))
        (λ left h paid. inr (accept_item-Takes item left state s h paid)) in
    grind (arith, inner, live, fatal-closes)

-- However many items of a call the worker sends: unless they close the session, they came in
-- sequence from the number that was expected, and the lossless ones among them spent no more than
-- the credit of the call.
pub receive-AreConsecutive :
    (c : Codec) (items : List StreamData) (id : CallId) (state : HostCall) (s : HostSession)
    → lookup id s.host_calls ≡ some state
    → AreOf id items
    → is_closed (receive c items s).phase ≡ false
    → AreConsecutive (expected_seq state) items × (spent items ≤ state.credit_left)
unfolding receive
receive-AreConsecutive c [] id state s live of_id going = (tt, omega arith)
receive-AreConsecutive c (item ∷ items) id state s live (same, of_id) going =
    elim (on_stream_data-Takes c item state s
      (subst (λ k. lookup k s.host_calls ≡ some state) (sym same) live)) [
        | inl shut ↦
            absurd (bool_clash (receive_closed c items (on_stream_data c item s) shut) going)
        | inr takes ↦
            let (rest, paid) =
              receive-AreConsecutive c items id takes.next (on_stream_data c item s)
                (subst (λ k. lookup k (on_stream_data c item s).host_calls ≡ some takes.next) same
                  takes.found)
                of_id going in
            (
              (
                takes.seq,
                subst (λ n. AreConsecutive n items)
                    (takes.next_seq ∙ ap (λ n. add_u64 n 1) takes.seq) rest,
              ),
              omega (arith, paid, takes.credit),
            )
      ]
  where
    bool_clash : {b : Bool} → b ≡ true → b ≡ false → ⊥
    bool_clash h k = cc
