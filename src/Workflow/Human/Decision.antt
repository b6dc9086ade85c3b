-- ===== src/Workflow/Human/Decision.antt =====
-- What a human decision comes to: `apply_payload` followed by `evaluate`, of
-- backend/app/workflow/human_node.py.
use Prim.Native.String.{◌++◌ as str_append}
use text.Mathlib.TextLemmas.{append_cancel_left, append-nil}
use enterprise_ai_agent.Prelude.{
  ◌≡◌, refl, Bool, true, false, ◌&&◌, ◌||◌, not, Option, none, some, String, if◌then◌else◌, arith,
  Option-cases, inl, inr,
}
use enterprise_ai_agent.Prelude.Text.{str_eq, eq_iff, eq_refl}
use enterprise_ai_agent.Prelude.TextDict.{TextDict, lookup, insert, known, lookup-insert}
use enterprise_ai_agent.Workflow.Node.{Value, null, bool, str, obj}
use enterprise_ai_agent.Workflow.Value.{Python, truthy, to_str, to_fields, set_default}
use enterprise_ai_agent.Workflow.Context.{NodeStatus, Context}
use enterprise_ai_agent.Workflow.Human.{
  HumanNode, context_key, flag_key, prompt_key, comment_key, get_or, or_value, action_of, by_action,
  by_approve, by_modified, normalize_payload, write_decision, apply_payload, evaluate,
}

-- Texts with the same beginning are equal only if they end the same.
ends-differ :
    (s x y : String) → str_eq x y ≡ false → str_eq (str_append s x) (str_append s y) ≡ false
ends-differ s x y d =
    ground
      (arith, d, eq_iff x y, eq_iff (str_append s x) (str_append s y), append_cancel_left s x y)

-- The keys of a node's approval in the shared context are told apart.
key-differs :
    (n x : String)
    → str_eq x "" ≡ false
    → str_eq (str_append (context_key n) x) (context_key n) ≡ false
key-differs n x d =
    let h = ends-differ (context_key n) x "" d in
    ground (
      arith,
      h,
      append-nil (context_key n),
      eq_iff (str_append (context_key n) x) (context_key n),
      eq_iff (str_append (context_key n) x) (str_append (context_key n) ""),
    )

-- The decision in a payload: the action settles it if it is "reject" or "approve", else the field
-- `approved`, else the action "modify", else the field `approve`, else a modified prompt.
unfoldable pub decided : String → TextDict Value → Bool
decided action payload =
    if str_eq action "reject"
    then false
    else if str_eq action "approve"
    then true
    else elim (lookup "approved" payload) [
      | some v ↦ truthy v
      | none ↦ if str_eq action "modify" then true else elim (lookup "approve" payload) [
        | some v ↦ truthy v
        | none ↦ truthy (
            or_value (get_or payload "modified_prompt" null)
              (get_or payload "modified_message" null))
      ]
    ]

-- The field `approved` after each stage of `normalize_payload`, and the other fields, which stay.
by_action-lookup :
    (action : String) (d : TextDict Value) (k : String)
    → lookup k (by_action action d) ≡ (
        if str_eq "approved" k
          && (str_eq action "reject" || str_eq action "approve" || str_eq action "modify")
        then some (
            if str_eq action "reject"
            then bool false
            else if str_eq action "approve"
            then bool true
            else get_or d "approved" (bool true))
        else lookup k d)
unfolding by_action
by_action-lookup action d k = ground (
  arith,
  lookup-insert "approved" k (bool false) d,
  lookup-insert "approved" k (bool true) d,
  lookup-insert "approved" k (get_or d "approved" (bool true)) d,
)

abbrev approve_field : TextDict Value → Option Value
approve_field d = elim (lookup "approve" d) [ none ↦ none | some v ↦ some (bool (truthy v)) ]

by_approve-lookup :
    (d : TextDict Value) (k : String)
    → lookup k (by_approve d) ≡ (
        if str_eq "approved" k && not (known (lookup "approved" d)) && known (lookup "approve" d)
        then approve_field d
        else lookup k d)
unfolding by_approve
by_approve-lookup d k = elim (Option-cases (lookup "approve" d)) [
  | inl e ↦ ground (arith, e)
  | inr (v, e) ↦ ground (arith, e, lookup-insert "approved" k (bool (truthy v)) d)
]

by_modified-approved :
    (py : Python) (action : String) (d : TextDict Value)
    → truthy (get_or (by_modified py action d) "approved" (bool false)) ≡ (
        if known (lookup "approved" d)
        then truthy (get_or d "approved" (bool false))
        else truthy (or_value (get_or d "modified_prompt" null) (get_or d "modified_message" null))
          && not (str_eq action "reject"))
unfolding by_modified truthy
by_modified-approved py action d =
    let modified = or_value (get_or d "modified_prompt" null) (get_or d "modified_message" null) in
    ground (
      arith,
      lookup-insert "approved" "approved" (bool true) d,
      lookup-insert "modified_prompt" "approved" (str (to_str py modified)) d,
      lookup-insert "modified_prompt" "approved" (str (to_str py modified))
          (insert "approved" (bool true) d),
    )

normalize_payload-decided :
    (py : Python) (payload : TextDict Value)
    → truthy (get_or (normalize_payload py payload) "approved" (bool false))
      ≡ decided (action_of py payload) payload
unfolding normalize_payload decided truthy
normalize_payload-decided py payload =
    let action = action_of py payload in
    let d = by_action action payload in
    ground (
      arith,
      by_modified-approved py action (by_approve d),
      by_approve-lookup d "approved",
      by_approve-lookup d "modified_prompt",
      by_approve-lookup d "modified_message",
      by_action-lookup action payload "approved",
      by_action-lookup action payload "approve",
      by_action-lookup action payload "modified_prompt",
      by_action-lookup action payload "modified_message",
    )

lookup-set_default :
    (k j : String) (v : Value) (d : TextDict Value)
    → str_eq k j ≡ false
    → lookup j (set_default k v d) ≡ lookup j d
unfolding set_default
lookup-set_default k j v d h = ground (arith, h, lookup-insert k j v d)

-- A key that a decision writes at last only if it is the prompt key, its own copy of the prompt or the
-- comment keeps what was there.
write_decision-lookup :
    (py : Python) (n prompt k : String) (normalized shared : TextDict Value)
    → str_eq prompt k ≡ false
    → str_eq (prompt_key n) k ≡ false
    → str_eq (comment_key n) k ≡ false
    → lookup k (write_decision py n prompt normalized shared)
      ≡ lookup k (
          insert
            (flag_key n)
            (bool (truthy (get_or normalized "approved" (bool false))))
            (insert (context_key n) (obj (to_fields normalized)) shared))
unfolding write_decision
write_decision-lookup py n prompt k normalized shared a b c =
    let approved = truthy (get_or normalized "approved" (bool false)) in
    let modified = get_or normalized "modified_prompt" null in
    let flagged =
      insert (flag_key n) (bool approved)
        (insert (context_key n) (obj (to_fields normalized)) shared) in
    let text = str (to_str py modified) in
    let note = str (to_str py (get_or normalized "comment" null)) in
    let copied = insert (prompt_key n) modified flagged in
    let default = set_default prompt (str "Proceed with standard review.") flagged in
    ground (
      arith,
      a,
      b,
      c,
      lookup-insert (prompt_key n) k modified flagged,
      lookup-insert prompt k text copied,
      lookup-set_default prompt k (str "Proceed with standard review.") flagged a,
      lookup-insert (comment_key n) k note flagged,
      lookup-insert (comment_key n) k note default,
      lookup-insert (comment_key n) k note (insert prompt text copied),
    )

-- After a payload is applied to a node, the node's evaluation ends the wait, whatever the payload is:
-- COMPLETED if the payload decides for it, FAILED if not. The node's prompt key must be no key of its
-- own approval.
pub evaluate-apply_payload :
    (py : Python) (h : HumanNode) (payload : TextDict Value) (ctx : Context)
    → str_eq h.context_prompt_key (context_key h.node_id) ≡ false
    → str_eq h.context_prompt_key (flag_key h.node_id) ≡ false
    → (evaluate py h
        (apply_payload py h.node_id payload h.context_prompt_key ctx).shared_context).status
      ≡ (if decided (action_of py payload) payload then NodeStatus.completed else NodeStatus.failed)
unfolding evaluate apply_payload
evaluate-apply_payload py h payload ctx a b =
    let n = h.node_id in
    let normalized = normalize_payload py payload in
    let noted = insert (context_key n) (obj (to_fields normalized)) ctx.shared_context in
    let approved = bool (truthy (get_or normalized "approved" (bool false))) in
    let kept = λ (k : String).
      write_decision-lookup py n h.context_prompt_key k normalized ctx.shared_context in
    ground (
      arith,
      normalize_payload-decided py payload,
      kept (context_key n) a (key-differs n ":modified_prompt" refl)
          (key-differs n ":comment" refl),
      kept (flag_key n) b (ends-differ (context_key n) ":modified_prompt" ":approved" refl)
          (ends-differ (context_key n) ":comment" ":approved" refl),
      lookup-insert (flag_key n) (context_key n) approved noted,
      lookup-insert (flag_key n) (flag_key n) approved noted,
      lookup-insert (context_key n) (context_key n) (obj (to_fields normalized)) ctx.shared_context,
      key-differs n ":approved" refl,
      eq_refl (flag_key n),
      eq_refl (context_key n),
    )
