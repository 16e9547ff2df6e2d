-- ===== src/Reader/Batch/Buffer.antt =====
-- The buffer of `GetBatch` while it is filled from the front.
use peli.Base.{
  ℕ, zero, suc, ◌*◌, ◌≡◌, refl, sym, ap, ◌∙◌, some, List, [], ◌∷◌, ◌++◌, arith, length, take, drop,
  get_elem?, ℤ, All, append_assoc, append_nil, take_front, drop_front, length-append,
}
use peli.Reader.Batch.{view, write}

-- The bytes of the filled places, in order.
abbrev pub flat : List (ℤ × List ℕ) → List ℕ
flat [] = []
flat ((p, bytes) ∷ slots) = bytes ++ flat slots

abbrev pub HasSize : ℕ → ℤ × List ℕ → Type 0
HasSize n (p, bytes) = length bytes ≡ n

pub length-flat :
    (n : ℕ) (slots : List (ℤ × List ℕ))
    → All (HasSize n) slots
    → length (flat slots) ≡ length slots * n
length-flat n [] h = omega arith
length-flat n ((p, bytes) ∷ slots) (h, hs) =
    omega (arith, length-append bytes (flat slots), length-flat n slots hs)

pub flat-append :
    (slots : List (ℤ × List ℕ)) (p : ℤ) (bytes : List ℕ)
    → flat (slots ++ ((p, bytes) ∷ [])) ≡ flat slots ++ bytes
flat-append [] p bytes = append_nil bytes
flat-append ((q, b) ∷ slots) p bytes =
    ap (λ l. b ++ l) (flat-append slots p bytes) ∙ sym (append_assoc b (flat slots) bytes)

-- A write at the end of what is filled.
pub write-front :
    (done rest bytes : List ℕ)
    → write (done ++ rest) (length done) bytes ≡ (done ++ bytes) ++ drop (length bytes) rest
unfolding write
write-front done rest bytes =
    rw (take_front done rest, drop_front done rest (length bytes) _ refl)
      (sym (append_assoc done bytes (drop (length bytes) rest)))

-- The view of a place that is filled.
pub view-flat :
    (n : ℕ) (slots : List (ℤ × List ℕ)) (rest : List ℕ) (j : ℕ) (q : ℤ) (bytes : List ℕ)
    → All (HasSize n) slots
    → get_elem? slots j ≡ some (q, bytes)
    → view (flat slots ++ rest) (j * n) n ≡ bytes
unfolding view
view-flat n [] rest j q bytes hs h = cc
view-flat n ((p, b) ∷ slots) rest zero q bytes (hb, hs) h =
    let L = flat ((p, b) ∷ slots) ++ rest in
    let start : 0 * n ≡ 0 = omega arith in
    let same : b ≡ bytes = cc in
    ap (λ o. take n (drop o L)) start
    ∙ ap (λ m. take m L) (sym hb)
    ∙ ap (λ l. take (length b) l) (append_assoc b (flat slots) rest)
    ∙ take_front b (flat slots ++ rest)
    ∙ same
view-flat n ((p, b) ∷ slots) rest (suc j) q bytes (hb, hs) h =
    ap (λ l. take n l)
      (ap (λ l. drop (suc j * n) l) (append_assoc b (flat slots) rest)
        ∙ drop_front b (flat slots ++ rest) (j * n) (suc j * n) (omega arith))
    ∙ view-flat n slots rest j q bytes hs h
