-- ===== src/Images.antt =====
-- stacks/gpt-webai-pro/src/supervisor/image-batch.ts: the chunks of an image batch. The reading of
-- the manifest and the check of the downloaded pixels are not modelled.
use Prim.Native.String.{String, ◌++◌ as ◌++ˢ◌}
use home_server_infra.Prelude.Text.{decimal}
use home_server_infra.Prelude.{
  ℕ, zero, suc, ◌+◌, ◌-◌, ◌/◌, ◌≤◌, ◌<◌, min, List, [], ◌∷◌, ◌++◌, ◌≡◌, refl, ap, arith, length,
  take, drop, ltb, All, if◌then◌else◌, Bool-cases, inl, inr,
}
use home_server_infra.Shared.Types.{ImagePrompt}

abbrev pub image_chunk_size : ℕ
image_chunk_size = 5

-- `images.slice(start, end)` for start ≤ end
abbrev slice : ℕ → ℕ → List ImagePrompt → List ImagePrompt
slice start end images = take (end - start) (drop start images)

-- The loop from `index` on; `fuel` bounds its rounds.
unfoldable pub chunks_from : ℕ → ℕ → List ImagePrompt → List (List ImagePrompt)
chunks_from zero index images = []
chunks_from (suc fuel) index images =
    let rest = chunks_from fuel (index + image_chunk_size) images in
    if ltb index (length images) then slice index (index + image_chunk_size) images ∷ rest else []

-- Each round takes an image or more, so as many rounds as there are images are enough.
unfoldable pub split_image_chunks : List ImagePrompt → List (List ImagePrompt)
unfolding chunks_from
split_image_chunks images = chunks_from (length images) 0 images

abbrev item_text : ℕ → ImagePrompt → String
item_text i item = "IMAGE " ++ˢ decimal (i + 1) ++ˢ " — ID " ++ˢ item.id ++ˢ "\n" ++ˢ item.prompt

-- `.map(…).join("\n\n")` from item `i` on
unfoldable pub item_texts : ℕ → List ImagePrompt → String
item_texts i [] = ""
item_texts i (item ∷ []) = item_text i item
item_texts i (item ∷ items) = item_text i item ++ˢ "\n\n" ++ˢ item_texts (suc i) items

unfoldable pub image_chunk_prompt : String → ℕ → List ImagePrompt → String
unfolding item_texts
image_chunk_prompt batch_id index items =
    "Image batch "
    ++ˢ batch_id
    ++ˢ ", chunk "
    ++ˢ decimal (index + 1)
    ++ˢ ".\n"
    ++ˢ "Generate exactly "
    ++ˢ decimal (length items)
    ++ˢ " SEPARATE original images using ChatGPT's image generation tool. "
    ++ˢ "Call the image tool for each requested image. Do not create a collage, contact sheet, HTML/SVG screenshot, or Python-drawn substitute. "
    ++ˢ "Finish every image in this chunk in this response, preserving the order below. "
    ++ˢ "Label the outputs with the specified IDs outside the images. Deliver actual downloadable image cards, not links you invent or a written claim of completion. "
    ++ˢ "The attachments contain the full production context and prompt manifest; use only the IDs listed in this chunk. "
    ++ˢ "If required context is missing or the image tool cannot complete the images, say so plainly.\n\n"
    ++ˢ item_texts 0 items

abbrev pub concat : List (List ImagePrompt) → List ImagePrompt
concat [] = []
concat (c ∷ cs) = c ++ concat cs

take-drop : (n : ℕ) (xs : List ImagePrompt) → take n xs ++ drop n xs ≡ xs
take-drop zero xs = refl
take-drop (suc n) [] = refl
take-drop (suc n) (x ∷ xs) = rw (take-drop n xs) refl

drop-drop : (m n k : ℕ) (xs : List ImagePrompt) → k ≡ n + m → drop m (drop n xs) ≡ drop k xs
drop-drop m zero k xs e = ap (λ z. drop z xs) (omega arith)
drop-drop zero (suc n) zero [] e = refl
drop-drop zero (suc n) (suc k) [] e = refl
drop-drop (suc m) (suc n) zero [] e = refl
drop-drop (suc m) (suc n) (suc k) [] e = refl
drop-drop m (suc n) zero (x ∷ xs) e = absurd (omega arith)
drop-drop m (suc n) (suc k) (x ∷ xs) e = drop-drop m n k xs (omega arith)

length-take : (n : ℕ) (xs : List ImagePrompt) → length (take n xs) ≡ min n (length xs)
length-take zero xs = ground arith
length-take (suc n) [] = ground arith
length-take (suc n) (x ∷ xs) = ground (arith, length-take n xs)

length-drop : (n : ℕ) (xs : List ImagePrompt) → length (drop n xs) ≡ length xs - n
length-drop zero xs = omega arith
length-drop (suc n) [] = omega arith
length-drop (suc n) (x ∷ xs) = omega (arith, length-drop n xs)

drop-all : (n : ℕ) (xs : List ImagePrompt) → length xs ≤ n → drop n xs ≡ []
drop-all zero [] h = refl
drop-all zero (x ∷ xs) h = absurd (omega arith)
drop-all (suc n) [] h = refl
drop-all (suc n) (x ∷ xs) h = drop-all n xs (omega arith)

-- The chunks from `index` on, if the fuel is enough, hold the images from `index` on, in order.
concat-chunks_from :
    (fuel index : ℕ) (images : List ImagePrompt)
    → length images ≤ index + fuel
    → concat (chunks_from fuel index images) ≡ drop index images
unfolding chunks_from
concat-chunks_from zero index images h = rw (drop-all index images (omega arith)) refl
concat-chunks_from (suc fuel) index images h = elim (Bool-cases (ltb index (length images))) [
  | inl more ↦
      let step : index + 5 - index ≡ 5 = omega arith in
      rw
        (
          more,
          concat-chunks_from fuel (index + 5) images (omega arith),
          step,
          ← drop-drop 5 index (index + 5) images refl,
        )
        (take-drop 5 (drop index images))
  | inr last ↦ rw (last, drop-all index images (ground arith)) refl
]

chunk_sizes :
    (fuel index : ℕ) (images : List ImagePrompt)
    → All (λ c. (0 < length c) × (length c ≤ 5)) (chunks_from fuel index images)
unfolding chunks_from
chunk_sizes zero index images = tt
chunk_sizes (suc fuel) index images = elim (Bool-cases (ltb index (length images))) [
  | inl more ↦
      let size = length-take (index + 5 - index) (drop index images) in
      let left = length-drop index images in
      rw more
        ((ground (arith, size, left), omega (arith, size)), chunk_sizes fuel (index + 5) images)
  | inr last ↦ rw last tt
]

chunk_count :
    (fuel index : ℕ) (images : List ImagePrompt)
    → length images ≤ index + fuel
    → length (chunks_from fuel index images) ≡ (length images - index + 4) / 5
unfolding chunks_from
chunk_count zero index images h = omega arith
chunk_count (suc fuel) index images h = ground (arith, chunk_count fuel (index + 5) images)

-- Splitting keeps the images and their order, makes ⌈n / 5⌉ chunks of n images, and each chunk
-- holds from one to five.
pub split_image_chunks_lem :
    (images : List ImagePrompt)
    → (concat (split_image_chunks images) ≡ images)
      × All (λ c. (0 < length c) × (length c ≤ image_chunk_size)) (split_image_chunks images)
      × (length (split_image_chunks images) ≡ (length images + 4) / 5)
unfolding split_image_chunks
split_image_chunks_lem images = (
  concat-chunks_from (length images) 0 images (omega arith),
  chunk_sizes (length images) 0 images,
  omega (arith, chunk_count (length images) 0 images (omega arith)),
)
