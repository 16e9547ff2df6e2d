-- ===== src/Avio/Reads.antt =====
-- What reads hand out after a seek, inside the file and past its end.
use peli.Base.{
  ℕ, zero, suc, ◌+◌, ◌-◌, ◌^◌, ◌≡◌, ◌≤◌, ◌<◌, ◌==◌, refl, ap, ◌∙◌, sym, subst, true, false, Option,
  none, some, List, [], ◌∷◌, ◌++◌, Outcome, ok, fatal, ◌>>=◌, leb, length, take, drop, pos,
  pos_part, ◌+ℤ◌, arith, pos-+ℤ, drop_all, take_over, take_add, drop_add, length-take, length-drop,
  append_nil, length-append, ◌⊎◌, inl, inr,
}
use peli.Avio.{Buffer, size_sub, ffmin, copy_out, read, seek_set, seek}

-- A run of reads into buffers of the given sizes.
unfoldable pub reads : Buffer → List ℕ → Outcome (List (Option (List ℕ)) × Buffer)
reads b [] = ok ([], b)
reads b (n ∷ ns) = do (got, c) ← read b n; (more, d) ← reads c ns; ok (got ∷ more, d)

-- The bytes of the reads, one after the other.
abbrev pub received : List (Option (List ℕ)) → List ℕ
received [] = []
received (none ∷ r) = received r
received (some bytes ∷ r) = bytes ++ received r

abbrev pub sum : List ℕ → ℕ
sum [] = 0
sum (n ∷ ns) = n + sum ns

-- The next byte is byte `p`, and the rest of the file is left.
pub record At (bytes : List ℕ) (p : ℕ) (b : Buffer) : Type 0 where
  pub here : b.ptr ≡ pos p
  pub left : p + b.size ≡ length bytes
  pub whole : b.file ≡ bytes
  pub counted : b.file_size ≡ length bytes

zero_or_pos : (n : ℕ) → (n ≡ 0) ⊎ (0 < n)
zero_or_pos zero = inl refl
zero_or_pos (suc n) = inr (omega arith)

ffmin_cases : (m n : ℕ) → ((m ≤ n) × (ffmin m n ≡ m)) ⊎ ((n < m) × (ffmin m n ≡ n))
unfolding ffmin
ffmin_cases m n = ground arith

ffmin-le : (m n : ℕ) → ffmin m n ≤ n
ffmin-le m n = ground (arith, ffmin_cases m n)

module _ {ℓ} {A : Type ℓ} where
  -- A read of at most `n` elements and then `m` more.
  take_min :
      (n m k : ℕ) (xs : List A)
      → k ≡ ffmin n (length xs)
      → take (n + m) xs ≡ take k xs ++ take m (drop k xs)
  take_min n m k xs def = elim (ffmin_cases n (length xs)) [
    | inl (le, e) ↦ take_add k m (n + m) xs (omega (arith, ffmin-le n (length xs))) (omega arith)
    | inr (lt, e) ↦
        let all : k ≡ length xs = omega arith in
        take_over (n + m) xs (omega arith)
        ∙ sym (append_nil xs)
        ∙ ap (λ l. l ++ []) (sym (take_over k xs (omega arith)))
        ∙ ap (λ l. take k xs ++ l)
            (sym (take_over m [] (omega arith))
              ∙ ap (λ l. take m l) (sym (drop_all xs k (omega arith))))
  ]

-- What is inside the file is copied out.
copy_out-At :
    (bytes : List ℕ) (p : ℕ) (b : Buffer) (k : ℕ)
    → At bytes p b
    → k ≤ b.size
    → copy_out b k ≡ ok (take k (drop p bytes))
unfolding copy_out
copy_out-At bytes p b k at h =
    rw (at.here, at.whole)
      (let fits : leb (p + k) (length bytes) ≡ true = ground arith in
        let front : leb (0 + 0) (p + 0) ≡ true = ground arith in rw (fits, front))

-- A read inside the file.
read-At :
    (bytes : List ℕ) (p : ℕ) (b : Buffer) (n : ℕ)
    → At bytes p b
    → ((ffmin n b.size ≡ 0) × (read b n ≡ ok (none, b)))
      ⊎ ((0 < ffmin n b.size)
          × (c : Buffer) × (read b n ≡ ok (some (take (ffmin n b.size) (drop p bytes)), c))
          × At bytes (p + ffmin n b.size) c)
unfolding read
read-At bytes p b n at = elim (zero_or_pos (ffmin n b.size)) [
  | inl e ↦ inl (e, rw e)
  | inr h ↦
      let differs : ((ffmin n b.size) == 0) ≡ false = ground arith in
      inr (
        h,
        record b { ptr = b.ptr +ℤ pos (ffmin n b.size); size = b.size - ffmin n b.size },
        rw (differs, copy_out-At bytes p b (ffmin n b.size) at (ffmin-le n b.size)),
        record {
          here = ap (λ z. z +ℤ pos (ffmin n b.size)) at.here ∙ pos-+ℤ p (ffmin n b.size);
          left = omega (arith, ffmin-le n b.size, at.left);
          whole = at.whole;
          counted = at.counted;
        },
      )
]

-- The run of reads hands out the bytes from `p` on, and stands behind them.
abbrev pub Received : List ℕ → ℕ → ℕ → Outcome (List (Option (List ℕ)) × Buffer) → Type 0
Received bytes p total o =
    (chunks : List (Option (List ℕ))) × (c : Buffer) × (o ≡ ok (chunks, c))
    × (received chunks ≡ take total (drop p bytes))
    × At bytes (p + length (received chunks)) c

pub reads-At :
    (bytes : List ℕ) (ns : List ℕ) (p : ℕ) (b : Buffer)
    → At bytes p b
    → Received bytes p (sum ns) (reads b ns)
unfolding reads
reads-At bytes [] p b at = ([], b, refl, refl, subst (λ q. At bytes q b) (omega arith) at)
reads-At bytes (n ∷ ns) p b at =
    let k = ffmin n b.size in
    let rest : length (drop p bytes) ≡ b.size = length-drop bytes p b.size (sym at.left) in
    let split = take_min n (sum ns) k (drop p bytes) (ap (λ l. ffmin n l) (sym rest)) in
    elim (read-At bytes p b n at) [
      | inl (e, r) ↦
          let (chunks, c, eq, same, after) = reads-At bytes ns p b at in
          (
            none ∷ chunks,
            c,
            rw (r, eq),
            same
                ∙ sym (
                    split
                    ∙ ap (λ j. take j (drop p bytes) ++ take (sum ns) (drop j (drop p bytes))) e),
            after,
          )
      | inr (h, c, r, at') ↦
          let (chunks, d, eq, same, after) = reads-At bytes ns (p + k) c at' in
          let first = take k (drop p bytes) in
          let size : length first ≡ k =
            length-take k (drop p bytes) (omega (arith, ffmin-le n b.size)) in
          (
            some first ∷ chunks,
            d,
            rw (r, eq),
            ap (λ l. first ++ l) (same ∙ ap (λ l. take (sum ns) l) (sym (drop_add p k bytes)))
                ∙ sym split,
            subst (λ q. At bytes q d) (omega (arith, length-append first (received chunks), size))
                after,
          )
    ]

-- On a file that fits `size_t`, after `SEEK_SET` to a byte of the file or its end, whatever was
-- read before: `seek` returns the offset, and reads into buffers of any sizes return, hand out
-- exactly the bytes from there on in order, as many as the buffers hold and the file has, and leave
-- the next byte behind the last one that they handed out.
pub reads_after_seek :
    (bytes : List ℕ) (b : Buffer) (o : ℕ) (ns : List ℕ)
    → length bytes < 2 ^ 64
    → b.file ≡ bytes
    → b.file_size ≡ length bytes
    → o ≤ length bytes
    → ((seek b (pos o) seek_set).0 ≡ pos o)
      × Received bytes o (sum ns) (reads (seek b (pos o) seek_set).1 ns)
unfolding seek size_sub
reads_after_seek bytes b o ns small file count h = (
  refl,
  reads-At bytes ns o (seek b (pos o) seek_set).1
      (record { here = refl; left = omega arith; whole = file; counted = count }),
)

read_outside :
    (b : Buffer) (n : ℕ) → 0 < n → 0 < b.size → length b.file < pos_part b.ptr → read b n ≡ fatal
unfolding read copy_out ffmin
read_outside b n h k past =
    let some_left : ((ffmin n b.size) == 0) ≡ false = ground arith in
    let outside : leb (pos_part b.ptr + ffmin n b.size) (length b.file) ≡ false = ground arith in
    ground arith

-- On a file of less than 2^63 bytes, `SEEK_SET` to an offset past its end reports success, and the
-- next read into a buffer that is not empty copies from outside the file, which is undefined.
pub seek_past_end :
    (b : Buffer) (o n : ℕ)
    → b.file_size ≡ length b.file
    → length b.file < 2 ^ 63
    → length b.file < o
    → o < 2 ^ 63
    → 0 < n
    → ((seek b (pos o) seek_set).0 ≡ pos o) × (read (seek b (pos o) seek_set).1 n ≡ fatal)
unfolding seek size_sub
seek_past_end b o n count small past big h =
    (refl, read_outside (seek b (pos o) seek_set).1 n h (omega arith) past)
