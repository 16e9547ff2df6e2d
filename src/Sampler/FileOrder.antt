-- ===== src/Sampler/FileOrder.antt =====
-- src/sampler/random_file_order_sampler.cc: the order of the files is shuffled, and each file is
-- read front to back. The shuffled order, the work of `std::random_shuffle`, is an argument.
pub mod Plan
pub mod Build
pub mod Fill
pub mod Step
pub mod Run
pub mod Epoch
use peli.Base.{
  ℕ, zero, suc, ◌+◌, ◌*◌, ◌/◌, ◌%◌, ◌≡◌, Bool, List, [], ◌∷◌, ◌++◌, map, Outcome, ok, fatal, ◌>>=◌,
  ◌>>◌, check, or_fatal, ltb, leb, ◌==◌, length, get_elem?, set, replicate, ℤ, pos, negsuc,
  pos_part, neg_part, ltb_ℤ, ◌+ℤ◌, ◌-ℤ◌, sub_ℕ, if◌then◌else◌,
}
use peli.Sampler.Batches.{SamplerIndex, Samples, resolve_end, check_range, bs_skip}

-- `ReaderRecord`.
pub record ReaderRecord : Type 0 where
  pub begin : ℤ
  pub end : ℤ
  pub interval : ℤ
  pub skip : ℤ
  pub current : ℤ

pub record FileOrder : Type 0 where
  pub bs : ℕ
  pub samples : Samples
  pub records : List ReaderRecord
  pub visit_order : List ℕ
  pub visit_idx : ℕ

-- `/` on `int64_t`, towards zero; division by zero traps.
unfoldable pub div_ℤ : ℤ → ℤ → Outcome ℤ
div_ℤ a (pos zero) = fatal
div_ℤ a (pos (suc n)) = ok (sub_ℕ (pos_part a / suc n) (neg_part a / suc n))
div_ℤ a (negsuc n) = ok (sub_ℕ (neg_part a / suc n) (pos_part a / suc n))

-- `visit_order_.insert(end(), num_batches, i)`: a negative count is a huge size, which throws.
unfoldable pub repeated : ℤ → ℕ → Outcome (List ℕ)
repeated (pos n) i = ok (replicate n i)
repeated (negsuc n) i = fatal

-- The constructor's loop over the files, from file `i` on: the visits and the records.
unfoldable pub visit_files : ℕ → List ℤ → List ℤ → ℤ → ℤ → ℤ → Outcome (List ℕ × List ReaderRecord)
unfolding div_ℤ repeated
visit_files i (len ∷ lens) (begin ∷ last ∷ range) bs interval skip = do
  let end = resolve_end len last
  num_batches ← div_ℤ (end +ℤ skip -ℤ begin) (bs_skip bs interval skip)
  here ← repeated num_batches i
  check_range len begin end
  (visits, records) ← visit_files (i + 1) lens range bs interval skip
  ok (
    here ++ visits,
    record { begin = begin; end = end; interval = interval; skip = skip; current = begin }
        ∷ records,
  )
visit_files i lens range bs interval skip = ok ([], [])

-- The constructor.
unfoldable pub new_file_order : List ℤ → List ℤ → ℤ → ℤ → ℤ → Outcome FileOrder
new_file_order lens range bs interval skip = do
  check (ltb_ℤ (pos 0) bs)
  check (length range % 2 == 0)
  check (length lens == length range / 2)
  (visits, records) ← visit_files 0 lens range bs interval skip
  ok (record {
    bs = pos_part bs;
    samples = replicate (pos_part bs) (0, pos 0);
    records = records;
    visit_order = visits;
    visit_idx = 0;
  })

abbrev pub rewind : ReaderRecord → ReaderRecord
rewind r = record r { current = r.begin }

unfoldable pub reset : FileOrder → List ℕ → FileOrder
reset s shuffled = record s {
  records = map rewind s.records;
  visit_order = shuffled;
  visit_idx = 0;
}

unfoldable pub has_next : FileOrder → Bool
has_next s = ltb s.visit_idx (length s.visit_order)

-- The loop of `Next`: `n` samples of file `i` from `p` on, and the position after them.
unfoldable pub fill : ℕ → ReaderRecord → ℤ → ℕ → Outcome (Samples × ℤ)
fill i r p zero = ok ([], p)
fill i r p (suc n) = do
  check (ltb_ℤ p r.end)
  (samples, q) ← fill i r (p +ℤ (r.interval +ℤ pos 1)) n
  ok ((i, p) ∷ samples, q)

unfoldable pub next : FileOrder → Outcome (Samples × FileOrder)
unfolding has_next
next s = do
  check (has_next s)
  check (length s.samples == s.bs)
  i ← or_fatal (get_elem? s.visit_order s.visit_idx)
  r ← or_fatal (get_elem? s.records i)
  (samples, p) ← fill i r r.current s.bs
  ok (
    samples,
    record s {
      samples = samples;
      records = set s.records i (record r { current = p -ℤ r.interval +ℤ r.skip });
      visit_idx = s.visit_idx + 1;
    },
  )

unfoldable pub size : FileOrder → ℕ
size s = length s.visit_order
