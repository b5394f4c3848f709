-- ===== src/Kernel/Cancel/Scope.antt =====
-- `CancelScope` and `CancelRequest` of crates/yah-kernel/src/cancel.rs. The stable `sort_by` is an
-- insertion sort, and `binary_search_by` halves the slice: it is given its length as fuel.
use yet_another_harness.Prelude.{
  ℕ, zero, suc, ◌/◌, ◌%◌, ◌^◌, Bool, true, false, ◌&&◌, ◌||◌, not, Option, none, some, List, [],
  ◌∷◌, Text, text_eq, text_ltb, mem_text, length, take, drop, ltb, leb, ◌==◌, if◌then◌else◌, Result,
  ok, err, guard, ◌>>◌,
}
use yet_another_harness.Kernel.Ids.{Uuid7, valid_wire_identifier}
use yet_another_harness.Kernel.Cancel.{
  CancelKind, depth, owns, kind_eq, CancelReason, CancelPolicy, Attachment, CancelStatus,
}

abbrev pub max_scope_members : ℕ
max_scope_members = 4096

pub record ScopeMember : Type 0 where
  pub member_kind : CancelKind
  pub member_id : Text
  pub attachment : Attachment
  pub order_index : ℕ

pub record MemberInput : Type 0 where
  pub member_kind : CancelKind
  pub member_id : Text
  pub attachment : Attachment

pub data ScopeError : Type 0 where
  too_large : ℕ → ScopeError
  duplicate_member : Text → ScopeError
  not_under_root : CancelKind → Text → ScopeError

pub record CancelScope : Type 0 where
  pub root_kind : CancelKind
  pub root_id : Text
  pub members : List ScopeMember

-- The root itself, or a kind that the root's can own.
abbrev pub is_under : CancelKind → Text → CancelKind → Text → Bool
is_under root_kind root_id member_kind member_id =
    (text_eq member_id root_id && kind_eq member_kind root_kind) || owns root_kind member_kind

-- The loop of `validate`, from an index, with the ids that it has seen.
unfoldable pub rows_valid : CancelKind → Text → ℕ → List Text → List ScopeMember → Bool
rows_valid root_kind root_id index seen [] = true
rows_valid root_kind root_id index seen (m ∷ ms) =
    is_under root_kind root_id m.member_kind m.member_id
    && valid_wire_identifier m.member_id
    && (m.order_index == index % 2 ^ 32)
    && not (mem_text m.member_id seen)
    && rows_valid root_kind root_id (suc index) (m.member_id ∷ seen) ms

-- `windows(2)`: each member before the next one.
unfoldable pub in_order : List ScopeMember → Bool
in_order [] = true
in_order (m ∷ []) = true
in_order (m ∷ n ∷ ms) =
    (ltb (depth n.member_kind) (depth m.member_kind)
      || (kind_eq m.member_kind n.member_kind && text_ltb m.member_id n.member_id))
    && in_order (n ∷ ms)

unfoldable pub validate_scope : CancelScope → Bool
validate_scope scope =
    leb (length scope.members) max_scope_members
    && valid_wire_identifier scope.root_id
    && rows_valid scope.root_kind scope.root_id 0 [] scope.members
    && in_order scope.members

-- The comparator of `freeze` puts the first before the second: `Less`.
abbrev pub sorts_before : MemberInput → MemberInput → Bool
sorts_before a b =
    ltb (depth b.member_kind) (depth a.member_kind)
    || ((depth b.member_kind == depth a.member_kind) && text_ltb a.member_id b.member_id)

unfoldable pub insert_member : MemberInput → List MemberInput → List MemberInput
insert_member m [] = m ∷ []
insert_member m (n ∷ ns) = if sorts_before n m then n ∷ insert_member m ns else m ∷ n ∷ ns

unfoldable pub sort_members : List MemberInput → List MemberInput
sort_members [] = []
sort_members (m ∷ ms) = insert_member m (sort_members ms)

-- `enumerate`, from an index.
unfoldable pub number : ℕ → List MemberInput → List ScopeMember
number index [] = []
number index (m ∷ ms) =
    record {
      member_kind = m.member_kind;
      member_id = m.member_id;
      attachment = m.attachment;
      order_index = index % 2 ^ 32;
    }
    ∷ number (suc index) ms

unfoldable pub check_under_root :
    CancelKind → Text → List MemberInput → Result (Unit {0}) ScopeError
check_under_root root_kind root_id [] = ok tt
check_under_root root_kind root_id (m ∷ ms) =
    if is_under root_kind root_id m.member_kind m.member_id
    then check_under_root root_kind root_id ms
    else err (ScopeError.not_under_root m.member_kind m.member_id)

unfoldable pub check_distinct : List Text → List MemberInput → Result (Unit {0}) ScopeError
check_distinct seen [] = ok tt
check_distinct seen (m ∷ ms) =
    if mem_text m.member_id seen
    then err (ScopeError.duplicate_member m.member_id)
    else check_distinct (m.member_id ∷ seen) ms

unfoldable pub freeze : CancelKind → Text → List MemberInput → Result CancelScope ScopeError
freeze root_kind root_id proposed = do
  guard (leb (length proposed) max_scope_members) (ScopeError.too_large (length proposed))
  check_under_root root_kind root_id proposed
  check_distinct [] proposed
  ok (record {
    root_kind = root_kind;
    root_id = root_id;
    members = number 0 (sort_members proposed);
  })

-- The comparator of `member`: the row before what is looked for, and at it.
abbrev pub row_before : CancelKind → Text → ScopeMember → Bool
row_before kind id m =
    ltb (depth kind) (depth m.member_kind)
    || ((depth kind == depth m.member_kind) && text_ltb m.member_id id)

abbrev pub row_at : CancelKind → Text → ScopeMember → Bool
row_at kind id m = (depth kind == depth m.member_kind) && text_eq m.member_id id

unfoldable pub binary_search : ℕ → CancelKind → Text → List ScopeMember → Option ScopeMember
binary_search zero kind id ms = none
binary_search (suc fuel) kind id ms =
    let left = binary_search fuel kind id (take (length ms / 2) ms) in
    elim (drop (length ms / 2) ms) [
      | [] ↦ none
      | ◌∷◌ m right ↦
          if row_at kind id m
          then some m
          else if row_before kind id m
          then binary_search fuel kind id right
          else left
    ]

abbrev pub or_else {ℓ} : {A : Type ℓ} → Option A → Option A → Option A
or_else none o = o
or_else (some a) o = some a

-- `CancelScope::member`: by each kind in turn, the deepest first.
unfoldable pub member_row : CancelScope → Text → Option ScopeMember
member_row scope id = or_else (find CancelKind.effect_intent) (
    or_else (find CancelKind.attempt)
      (or_else (find CancelKind.execution_unit) (find CancelKind.run)))
  where
    find : CancelKind → Option ScopeMember
    find kind = binary_search (length scope.members) kind id scope.members

pub record CancelRequest : Type 0 where
  pub cancel_request_id : Uuid7
  pub reason : CancelReason
  pub policy : CancelPolicy
  pub scope : CancelScope
  pub status : CancelStatus
  pub requested_at : ℕ
  pub requested_by_kind : Text

abbrev pub is_attached : ScopeMember → Bool
is_attached m = elim m.attachment [ Attachment.attached ↦ true | Attachment.detached ↦ false ]

unfoldable pub governs : CancelRequest → Text → Bool
governs request id = by_policy request.policy
  where
    by_policy : CancelPolicy → Bool
    by_policy CancelPolicy.root_only = text_eq request.scope.root_id id
    by_policy CancelPolicy.attached_cascade = elim (member_row request.scope id) [
      | none ↦ false
      | some m ↦ is_attached m
    ]
