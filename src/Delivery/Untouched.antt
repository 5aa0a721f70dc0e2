-- ===== src/Delivery/Untouched.antt =====
-- The operations that leave `send_attempts` alone.
use home_server_infra.Prelude.{
  ℕ, ◌+◌, String, Option, Bool, not, ◌++◌, List, [], ◌∷◌, ◌≡◌, refl, arith, ◌∙◌,
}
use home_server_infra.Prelude.Rows.{select_where}
use home_server_infra.Shared.Types.{SlotConfig, SlotRow, ArtifactRow}
use home_server_infra.Database.Store.{Database, Tx}
use home_server_infra.Database.Relates.{Relates, IsPreorder, bind-Relates}
use home_server_infra.Database.Requests.{
  create_request, update_request, RequestPatch, touch_nonterminal_request,
}
use home_server_infra.Database.Usage.{add_artifact}
use home_server_infra.Database.Slots.{
  sync_slots, delete_orphans, delete_slot, upsert_slots, list_slots, has_slot_id,
}
use home_server_infra.Database.Images.{
  NewChunk, create_image_batch, insert_chunks, insert_one, insert_chunk,
}
use home_server_infra.Slots.Claim.{Pool, claim_slot_for_request}
use home_server_infra.Delivery.Settlement.{
  Pointers, update_conversation_pointer, complete_request, fail_generating,
}

-- What an action leaves of the table is what it found.
abbrev pub SameAttempts : Database → Database → Type 0
SameAttempts d e = e.send_attempts ≡ d.send_attempts

abbrev pub LeavesAttempts : {A : Type 0} → Tx A → Type 0
LeavesAttempts m = Relates SameAttempts m

SameAttempts-IsPreorder : IsPreorder SameAttempts
SameAttempts-IsPreorder = record { refl = λ d. refl; trans = λ c d e h k. k ∙ h }

pub create_request-LeavesAttempts :
    (id sha : String) (now : ℕ) → LeavesAttempts (create_request id sha now)
unfolding create_request
create_request-LeavesAttempts id sha now d = ground arith

pub update_request-LeavesAttempts :
    (id : String) (patch : RequestPatch) (now : ℕ) → LeavesAttempts (update_request id patch now)
unfolding update_request
update_request-LeavesAttempts id patch now d = ground arith

pub touch-LeavesAttempts :
    (id : String) (now : ℕ) → LeavesAttempts (touch_nonterminal_request id now)
unfolding touch_nonterminal_request
touch-LeavesAttempts id now d = ground arith

pub claim-LeavesAttempts :
    (locale_leb : String → String → Bool) (pool : Pool) (id : String) (now : ℕ)
    → LeavesAttempts (claim_slot_for_request locale_leb pool id now)
unfolding claim_slot_for_request
claim-LeavesAttempts locale_leb pool id now d = ground arith

pub add_artifact-LeavesAttempts : (row : ArtifactRow) → LeavesAttempts (add_artifact row)
unfolding add_artifact
add_artifact-LeavesAttempts row d = ground arith

insert_one-LeavesAttempts :
    (id : String) (index : ℕ) (chunk : NewChunk) (now : ℕ)
    → LeavesAttempts (insert_one id index chunk now)
unfolding insert_one insert_chunk create_request
insert_one-LeavesAttempts id index chunk now d = ground arith

insert_chunks-LeavesAttempts :
    (id : String) (clock : ℕ → ℕ) (index : ℕ) (chunks : List NewChunk)
    → LeavesAttempts (insert_chunks id clock index chunks)
unfolding insert_chunks
insert_chunks-LeavesAttempts id clock index [] = λ d. refl
insert_chunks-LeavesAttempts id clock index (chunk ∷ chunks) =
    bind-Relates SameAttempts SameAttempts-IsPreorder (insert_one id index chunk (clock index))
      (λ _. insert_chunks id clock (index + 1) chunks)
      (insert_one-LeavesAttempts id index chunk (clock index))
      (λ _. insert_chunks-LeavesAttempts id clock (index + 1) chunks)

pub create_image_batch-LeavesAttempts :
    (id : String) (chunks : List NewChunk) (now : ℕ) (clock : ℕ → ℕ)
    → LeavesAttempts (create_image_batch id chunks now clock)
unfolding create_image_batch
create_image_batch-LeavesAttempts id chunks now clock d = ground (
  arith,
  insert_chunks-LeavesAttempts id clock 0 chunks
      (record d { image_batches = d.image_batches ++ record { id = id; created_at = now } ∷ [] }),
)

delete_slot-LeavesAttempts : (id : String) → LeavesAttempts (delete_slot id)
unfolding delete_slot
delete_slot-LeavesAttempts id d = ground arith

delete_orphans-LeavesAttempts :
    (slots : List SlotConfig) (rows : List SlotRow) → LeavesAttempts (delete_orphans slots rows)
unfolding delete_orphans delete_slot
delete_orphans-LeavesAttempts slots [] d = refl
delete_orphans-LeavesAttempts slots (row ∷ rows) d = ground (
  arith,
  delete_orphans-LeavesAttempts slots rows d,
  delete_orphans-LeavesAttempts slots rows
      (record d { slots = select_where (λ s. not (has_slot_id row.id s)) d.slots }),
)

pub sync_slots-LeavesAttempts : (slots : List SlotConfig) → LeavesAttempts (sync_slots slots)
unfolding sync_slots
sync_slots-LeavesAttempts slots d =
    let written = record d { slots = upsert_slots slots d.slots } in
    ground (arith, delete_orphans-LeavesAttempts slots (list_slots written) written)

pub points-LeavesAttempts :
    (pointers : Pointers) (id url : String) (now : ℕ)
    → LeavesAttempts (update_conversation_pointer pointers id url now)
unfolding update_conversation_pointer
points-LeavesAttempts pointers id url now d = ground arith

pub completes-LeavesAttempts :
    (id sha : String) (detail : Option String) (now : ℕ)
    → LeavesAttempts (complete_request id sha detail now)
unfolding complete_request
completes-LeavesAttempts id sha detail now d = refl

pub fails-LeavesAttempts :
    (id kind detail : String) (now : ℕ) → LeavesAttempts (fail_generating id kind detail now)
unfolding fail_generating
fails-LeavesAttempts id kind detail now d = refl
