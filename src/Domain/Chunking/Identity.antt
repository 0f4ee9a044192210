-- ===== src/Domain/Chunking/Identity.antt =====
-- A chunk passes its validators, and its identifier tells its document and its position.
use Prim.Native.Nat.{◌^◌}
use ai_system_engineering_cu.Base.{
  ℕ, suc, ◌+◌, ◌≤◌, ◌<◌, ◌≡◌, refl, arith, true, false, List, [], ◌∷◌, ◌++◌, Text, length, padded,
  length-padded, text_beq_refl,
}
use ai_system_engineering_cu.Domain.Validation.{is_slug, has_length}
use ai_system_engineering_cu.Domain.Documents.{DocumentRecord, is_document}
use ai_system_engineering_cu.Domain.Embedding.{embed}
use ai_system_engineering_cu.Domain.Embedding.Order.{length-embed}
use ai_system_engineering_cu.Domain.Chunking.{is_empty, chunk_id_of, is_chunk, chunk_of}

length-append : {A : Type 0} (xs ys : List A) → length (xs ++ ys) ≡ length xs + length ys
length-append [] ys = omega arith
length-append (x ∷ xs) ys = omega (arith, length-append xs ys)

is_slug-length : (n : ℕ) (s : Text) → is_slug n s ≡ true → (1 ≤ length s) × (length s ≤ n)
unfolding is_slug
is_slug-length n [] h = cc
is_slug-length n (c ∷ s) h = ground arith

has_length_of : (n : ℕ) (s : Text) → 1 ≤ length s → length s ≤ n → has_length n s ≡ true
unfolding has_length
has_length_of n s h k = ground arith

length_pos-is_empty : {A : Type 0} (xs : List A) → 1 ≤ length xs → is_empty xs ≡ false
length_pos-is_empty (x ∷ xs) h = refl
length_pos-is_empty [] h = absurd (omega arith)

is_document-length :
    (document : DocumentRecord)
    → is_document document ≡ true
    → (1 ≤ length document.document_id) × (length document.document_id ≤ 120)
unfolding is_document
is_document-length document h = is_slug-length 120 document.document_id (ground arith)

-- The chunk of a valid document with some text is valid, up to an index of 19 digits.
pub chunk_of-valid :
    (casefold : Text → Text) (blake2b : Text → ℕ → ℕ) (document : DocumentRecord) (index : ℕ)
    (text : Text)
    → is_document document ≡ true
    → index < 10 ^ 19
    → 1 ≤ length text
    → is_chunk (chunk_of casefold blake2b document index text) ≡ true
unfolding is_chunk chunk_of chunk_id_of
chunk_of-valid casefold blake2b document index text doc small some_text =
    rw
      (
        has_length_of 140 (document.document_id ++ b'#' ∷ padded 4 index)
            (omega (arith, len, bounds.0))
            (omega (arith, len, bounds.1, length-padded 4 18 index small (omega arith))),
        has_length_of 120 document.document_id bounds.0 bounds.1,
        text_beq_refl (document.document_id ++ b'#' ∷ padded 4 index),
        length_pos-is_empty (embed casefold blake2b (document.title ++ b' ' ∷ text))
            (omega (arith, length-embed casefold blake2b (document.title ++ b' ' ∷ text))),
      )
      (ground arith)
  where
    bounds : (1 ≤ length document.document_id) × (length document.document_id ≤ 120)
    bounds = is_document-length document doc

    len :
        length (document.document_id ++ b'#' ∷ padded 4 index)
        ≡ length document.document_id + suc (length (padded 4 index))
    len = length-append document.document_id (b'#' ∷ padded 4 index)
