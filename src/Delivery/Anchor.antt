-- ===== src/Delivery/Anchor.antt =====
-- The anchor that an uncertain send leaves in `error_detail`: `StoredSendAnchor`,
-- `encodeSendAnchor` and `decodeSendAnchor` of run.ts. The JSON texts are made and read by the
-- runtime, so `stringify` and `parse` are arguments.
use home_server_infra.Prelude.{String, ◌&&◌, not, Option, none, some, List, is_some, if◌then◌else◌}
use home_server_infra.Prelude.Text.{truthy}
use text.Mathlib.Text.{starts_with}

-- the optional third argument of `markSendUncertain`
pub record SendAnchor : Type 0 where
  pub pending_user_turn_id : Option String
  pub pending_conversation_url : Option String
  pub pre_click_baseline : Option (List String)

pub record StoredSendAnchor : Type 0 where
  pub detail : String
  pub pending_conversation_url : Option String
  pub pre_click_baseline : Option (List String)

-- `{ ...(value ? { key: value } : {}) }`
abbrev pub if_truthy : Option String → Option String
if_truthy v = if truthy v then v else none

abbrev pub anchor_url : Option SendAnchor → Option String
anchor_url none = none
anchor_url (some a) = a.pending_conversation_url

abbrev anchor_baseline : Option SendAnchor → Option (List String)
anchor_baseline none = none
anchor_baseline (some a) = a.pre_click_baseline

-- An empty array is truthy, so a baseline counts as soon as it is there.
unfoldable pub encode_send_anchor :
    (StoredSendAnchor → String) → String → Option SendAnchor → String
encode_send_anchor stringify detail anchor =
    if not (truthy (anchor_url anchor)) && not (is_some (anchor_baseline anchor))
    then detail
    else stringify (record {
      detail = detail;
      pending_conversation_url = if_truthy (anchor_url anchor);
      pre_click_baseline = anchor_baseline anchor;
    })

-- A parsed member of the object: absent, of the type wanted, or of another type.
pub data Member (A : Type 0) : Type 0 where
  absent : Member A
  typed : A → Member A
  mistyped : Member A

pub record ParsedAnchor : Type 0 where
  pub detail : Member String
  pub pending_conversation_url : Member String
  pub pre_click_baseline : Member (List String)

abbrev optional_member : {A B : Type 0} → Member A → (Option A → Option B) → Option B
optional_member absent k = k none
optional_member (typed a) k = k (some a)
optional_member mistyped k = none

abbrev required_member : {A B : Type 0} → Member A → (A → Option B) → Option B
required_member (typed a) k = k a
required_member _ k = none

abbrev checked_anchor : Option ParsedAnchor → Option StoredSendAnchor
checked_anchor none = none
checked_anchor (some p) = required_member p.detail λ detail.
    optional_member p.pending_conversation_url λ url.
      optional_member p.pre_click_baseline λ baseline.
        some (record {
          detail = detail;
          pending_conversation_url = url;
          pre_click_baseline = baseline;
        })

-- `parse` is `none` where `JSON.parse` throws.
unfoldable pub decode_send_anchor :
    (String → Option ParsedAnchor) → Option String → Option StoredSendAnchor
decode_send_anchor parse none = none
decode_send_anchor parse (some value) =
    if starts_with value "{" then checked_anchor (parse value) else none
