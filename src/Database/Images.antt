-- ===== src/Database/Images.antt =====
-- The `image_batches` and `image_chunks` tables.
use home_server_infra.Prelude.{
  ℕ, ◌+◌, String, Bool, ◌&&◌, ◌||◌, not, Option, List, [], ◌∷◌, ◌++◌, ◌==◌, leb, str_eq, is_some,
  length,
}
use home_server_infra.Prelude.Rows.{select_where, find_row, order_by}
use home_server_infra.Shared.Types.{ImagePrompt, ImageChunkRow}
use home_server_infra.Shared.Failure.{constraint_failed}
use home_server_infra.Database.Store.{
  Database, ImageBatchRow, Tx, pure, query, execute, check, immediate, ◌>>=◌, ◌>>◌,
}
use home_server_infra.Database.Requests.{create_request, get_request}

-- what `createImageBatch` is given for each chunk
pub record NewChunk : Type 0 where
  pub request_id : String
  pub prompt_sha256 : String
  pub items : List ImagePrompt

-- the primary key (batch_id, ordinal), or the UNIQUE request_id
abbrev pub is_same_chunk : String → ℕ → String → ImageChunkRow → Bool
is_same_chunk batch_id ordinal request_id c =
    (str_eq c.batch_id batch_id && c.ordinal == ordinal) || str_eq c.request_id request_id

-- INSERT INTO image_chunks VALUES (?, ?, ?, ?)
unfoldable pub insert_chunk : String → ℕ → NewChunk → Tx (Unit {0})
insert_chunk batch_id ordinal chunk = do
  existing ← query λ d. find_row (is_same_chunk batch_id ordinal chunk.request_id) d.image_chunks
  check (not (is_some existing)) (constraint_failed "UNIQUE constraint failed: image_chunks")
  check (leb 1 (length chunk.items) && leb (length chunk.items) 5)
      (constraint_failed "CHECK constraint failed: image_chunks")
  batch ← query λ d. find_row (λ b. str_eq b.id batch_id) d.image_batches
  request ← get_request chunk.request_id
  check (is_some batch && is_some request) (constraint_failed "FOREIGN KEY constraint failed")
  execute λ d. record d {
    image_chunks =
        d.image_chunks
        ++ record {
          batch_id = batch_id;
          ordinal = ordinal;
          request_id = chunk.request_id;
          items = chunk.items;
        }
          ∷ [];
  }

-- one round of the loop
unfoldable pub insert_one : String → ℕ → NewChunk → ℕ → Tx (Unit {0})
insert_one batch_id index chunk now = do
  _ ← create_request chunk.request_id chunk.prompt_sha256 now
  insert_chunk batch_id index chunk

-- The loop reads the clock for each request: `clock n` is its time at chunk `n`.
unfoldable pub insert_chunks : String → (ℕ → ℕ) → ℕ → List NewChunk → Tx (Unit {0})
insert_chunks batch_id clock index [] = pure tt
insert_chunks batch_id clock index (chunk ∷ chunks) = do
  insert_one batch_id index chunk (clock index)
  insert_chunks batch_id clock (index + 1) chunks

unfoldable pub create_image_batch : String → List NewChunk → ℕ → (ℕ → ℕ) → Tx (Unit {0})
create_image_batch id chunks now clock = immediate do
  existing ← query λ d. find_row (λ (b : ImageBatchRow). str_eq b.id id) d.image_batches
  check (not (is_some existing)) (constraint_failed "UNIQUE constraint failed: image_batches.id")
  execute
      λ d. record d { image_batches = d.image_batches ++ record { id = id; created_at = now } ∷ [] }
  insert_chunks id clock 0 chunks

-- ORDER BY ordinal
unfoldable pub list_image_chunks : String → Database → List ImageChunkRow
list_image_chunks id d =
    order_by (λ a b. leb a.ordinal b.ordinal)
      (select_where (λ c. str_eq c.batch_id id) d.image_chunks)

unfoldable pub image_chunk_for_request : String → Database → Option ImageChunkRow
image_chunk_for_request id d = find_row (λ c. str_eq c.request_id id) d.image_chunks
