-- ===== src/Buffer/RoundTrip.antt =====
-- What was appended comes back from `retrieveAllAsString`, behind what was there.
use mu_muduo.Common.{ℕ, ◌≡◌, ap, ◌∙◌, List, [], ◌++◌, length, drop_all, arith, ok, ◌>>=◌}
use mu_muduo.Buffer.{Buffer, readable_bytes, retrieve, append, retrieve_all_as_string}
use mu_muduo.Buffer.Valid.{IsValid, content}
use mu_muduo.Buffer.Moves.{
  length-content, content-retrieve, retrieve-IsValid, retrieve_all_as_string_lem,
}
use mu_muduo.Buffer.Append.{Fits, append_lem}

-- A valid buffer that holds nothing.
abbrev pub IsDrained : Buffer → Type 0
IsDrained b = IsValid b × (content b ≡ [])

pub retrieve_all_IsDrained : {b : Buffer} → IsValid b → IsDrained (retrieve (readable_bytes b) b)
retrieve_all_IsDrained {b} v = (
  retrieve-IsValid (readable_bytes b) v,
  content-retrieve (readable_bytes b) v
      ∙ drop_all (readable_bytes b) (content b) (omega (arith, length-content v)),
)

-- On a valid buffer, reading everything after an `append` that fits returns the old content
-- followed by the block, and leaves a valid buffer with no content.
pub append-retrieve_all :
    (xs : List ℕ) {b : Buffer}
    → IsValid b
    → Fits (length xs) b
    → (c : Buffer) × ((append xs b >>= retrieve_all_as_string) ≡ ok (content b ++ xs, c))
      × IsDrained c
append-retrieve_all xs {b} v f = go (append_lem xs v f)
  where
    go :
        (b' : Buffer) × (append xs b ≡ ok b') × IsValid b' × (content b' ≡ content b ++ xs)
        → (c : Buffer) × ((append xs b >>= retrieve_all_as_string) ≡ ok (content b ++ xs, c))
          × IsDrained c
    go (b', e, w, same) = (
      retrieve (readable_bytes b') b',
      rw e (retrieve_all_as_string_lem w)
          ∙ ap (λ zs. ok (zs, retrieve (readable_bytes b') b')) same,
      retrieve_all_IsDrained w,
    )
