-- ===== src/Checksum/Hashing.antt =====
-- checksum.py: `compute_checksum`, which reads a file in chunks, and
-- `compute_checksum_from_content`. The hash functions of hashlib are a parameter.
use confiture.Base.{
  ℕ, zero, suc, ◌≤◌, ◌≡◌, sym, ap, ◌∙◌, List, [], ◌∷◌, ◌++◌, length, take, drop, take-append-drop,
  arith,
}
use confiture.Base.Text.{Text}

-- `hashlib`, at algorithms that it has.
pub record Hashlib : Type 1 where
  pub Hash : Type 0
  pub new : (algorithm : Text) → Hash
  pub update : Hash → (bytes : List ℕ) → Hash
  pub hexdigest : Hash → Text

-- "Repeated calls are equivalent to a single call with the concatenation of all the arguments."
pub record IsHashlib (lib : Hashlib) : Type 0 where
  pub update_nothing : (h : lib.Hash) → lib.update h [] ≡ h
  pub update_twice :
      (h : lib.Hash) (a b : List ℕ) → lib.update (lib.update h a) b ≡ lib.update h (a ++ b)

-- `f.read(8192)`
abbrev chunk_size : ℕ
chunk_size = 8192

module _ (lib : Hashlib) where
  -- `for chunk in iter(lambda: f.read(size), b"")`, on fuel.
  unfoldable pub update_chunks : (fuel size : ℕ) → List ℕ → lib.Hash → lib.Hash
  update_chunks zero size rest h = h
  update_chunks (suc fuel) size [] h = h
  update_chunks (suc fuel) size (byte ∷ rest) h =
      update_chunks fuel size (drop size (byte ∷ rest)) (lib.update h (take size (byte ∷ rest)))

  unfoldable pub compute_checksum : (contents : Text → List ℕ) (file algorithm : Text) → Text
  compute_checksum contents file algorithm =
      lib.hexdigest
        (update_chunks (length (contents file)) chunk_size (contents file) (lib.new algorithm))

  -- The content is given as bytes.
  unfoldable pub compute_checksum_from_content : (content : List ℕ) (algorithm : Text) → Text
  compute_checksum_from_content content algorithm =
      lib.hexdigest (lib.update (lib.new algorithm) content)

  length-drop : (n : ℕ) (l : List ℕ) → length (drop n l) ≤ length l
  length-drop zero l = omega arith
  length-drop (suc n) [] = omega arith
  length-drop (suc n) (x ∷ l) = omega (arith, length-drop n l)

  dropped :
      (size : ℕ) (byte : ℕ) (rest : List ℕ)
      → 1 ≤ size
      → length (drop size (byte ∷ rest)) ≤ length rest
  dropped zero byte rest h = ground (arith, h)
  dropped (suc n) byte rest h = length-drop n rest

  module _ (laws : IsHashlib lib) where
    update_chunks_lem :
        (fuel size : ℕ) (content : List ℕ) (h : lib.Hash)
        → 1 ≤ size
        → length content ≤ fuel
        → update_chunks fuel size content h ≡ lib.update h content
    unfolding update_chunks
    update_chunks_lem zero size [] h k enough = sym (laws.update_nothing h)
    update_chunks_lem zero size (byte ∷ rest) h k enough = ground (arith, enough)
    update_chunks_lem (suc fuel) size [] h k enough = sym (laws.update_nothing h)
    update_chunks_lem (suc fuel) size (byte ∷ rest) h k enough =
        update_chunks_lem fuel size (drop size (byte ∷ rest))
          (lib.update h (take size (byte ∷ rest))) k
          (omega (arith, enough, dropped size byte rest k))
        ∙ laws.update_twice h (take size (byte ∷ rest)) (drop size (byte ∷ rest))
        ∙ ap (lib.update h) (take-append-drop size (byte ∷ rest))

-- A file that is read in chunks has the checksum of its whole content: the turns of the loop are
-- enough, and no byte is left out or hashed twice. Updating a hash twice is updating it with both
-- together, as hashlib documents.
pub compute_checksum-from_content :
    (lib : Hashlib)
    → IsHashlib lib
    → (contents : Text → List ℕ) (file algorithm : Text)
    → compute_checksum lib contents file algorithm
      ≡ compute_checksum_from_content lib (contents file) algorithm
unfolding compute_checksum compute_checksum_from_content
compute_checksum-from_content lib laws contents file algorithm = ap lib.hexdigest (
    update_chunks_lem lib laws _ chunk_size (contents file) (lib.new algorithm) (omega arith)
      (omega arith))
