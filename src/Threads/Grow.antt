-- ===== src/Threads/Grow.antt =====
-- The page of counters, which is sized by the number of errors.
use peli.Base.{
  ℕ, zero, suc, ◌+◌, ◌*◌, ◌≡◌, ◌≤◌, ◌<◌, refl, ap, ◌∙◌, true, false, some, List, [], ◌∷◌, ok, fatal,
  ◌>>=◌, if◌then◌else◌, ltb, length, set, length-set, replicate, length-replicate, arith, ℤ, pos,
}
use peli.Threads.Launcher.{
  Launcher, new_launcher, sync_stride, resize, reset_at, reset_counters, grown_page, grown_errors,
  begin_init, with_counters, init,
}

pub length-resize : (n : ℕ) (l : List (List ℕ)) → length (resize n l) ≡ n
unfolding resize
length-resize zero l = refl
length-resize (suc n) [] = ap suc (length-resize n [])
length-resize (suc n) (text ∷ l) = ap suc (length-resize n l)

reset_at_inside :
    (i : ℕ) (page : List ℤ)
    → i < length page
    → reset_at i (some page) ≡ ok (some (set page i (pos 0)))
unfolding reset_at
reset_at_inside i page h = ground arith

reset_at_outside : (i : ℕ) (page : List ℤ) → length page ≤ i → reset_at i (some page) ≡ fatal
unfolding reset_at
reset_at_outside i page h = ground arith

-- A page that is large enough stays of its size.
reset_counters_inside :
    (k i : ℕ) (page : List ℤ)
    → length page ≡ (i + k) * 16
    → (out : List ℤ) × (reset_counters i k (some page) ≡ ok (some out)) × (length out ≡ length page)
unfolding reset_counters
reset_counters_inside zero i page h = (page, refl, refl)
reset_counters_inside (suc k) i page h =
    let inside : i * 16 < length page = omega arith in
    let next = set page (i * 16) (pos 0) in
    let same = length-set page (i * 16) (pos 0) in
    let (out, run, size) = reset_counters_inside k (i + 1) next (same ∙ h ∙ omega arith) in
    (
      out,
      ap (λ o. o >>= λ written. reset_counters (i + 1) k written)
            (reset_at_inside (i * 16) page inside)
          ∙ run,
      size ∙ same,
    )

-- With one task more than the page is for, the last write is outside.
reset_counters_outside :
    (k i : ℕ) (page : List ℤ)
    → length page ≡ (i + k) * 16
    → reset_counters i (suc k) (some page) ≡ fatal
unfolding reset_counters
reset_counters_outside zero i page h =
    ap (λ o. o >>= λ written. reset_counters (i + 1) 0 written)
      (reset_at_outside (i * 16) page (omega arith))
reset_counters_outside (suc k) i page h =
    let inside : i * 16 < length page = omega arith in
    let next = set page (i * 16) (pos 0) in
    let same = length-set page (i * 16) (pos 0) in
    ap (λ o. o >>= λ written. reset_counters (i + 1) (suc k) written)
      (reset_at_inside (i * 16) page inside)
    ∙ reset_counters_outside k (i + 1) next (same ∙ h ∙ omega arith)

first_errors : (n : ℕ) → 0 < n → length (grown_errors n new_launcher) ≡ n + 1
unfolding grown_errors
first_errors n many =
    let grows : ltb 0 n ≡ true = ground arith in
    rw (grows, if◌then◌else◌) (length-resize (n + 1) [])

first_page :
    (junk : ℤ) (n : ℕ)
    → 0 < n
    → grown_page junk n true new_launcher ≡ some (replicate (n * 16) junk)
unfolding grown_page
first_page junk n many = let grows : ltb 0 n ≡ true = ground arith in rw (grows, if◌then◌else◌) refl

kept_page :
    (junk : ℤ) (n : ℕ) (l : Launcher)
    → length l.par_errors ≡ n
    → grown_page junk n true l ≡ l.sync_counter
unfolding grown_page
kept_page junk n l h =
    let kept : ltb (length l.par_errors) n ≡ false = ground arith in rw (kept, if◌then◌else◌) refl

-- A launcher that was first used for `n` synchronised tasks, at least one, has a page for `n`
-- counters and `n + 1` errors. `Init` for `n + 1` synchronised tasks then keeps that page; its loop
-- writes the first `n` counters, and fails at the last one, whose place is outside of the page.
pub init_grown :
    (junk : ℤ) (n : ℕ)
    → 0 < n
    → (l : Launcher) × (page : List ℤ) × (init junk n true new_launcher ≡ ok l)
      × (l.sync_counter ≡ some page)
      × (length page ≡ n * sync_stride)
      × (length l.par_errors ≡ n + 1)
      × ((begin_init junk (suc n) true l).sync_counter ≡ some page)
      × ((written : List ℤ) × (reset_counters 0 n (some page) ≡ ok (some written))
          × (reset_at (n * sync_stride) (some written) ≡ fatal))
      × (init junk (suc n) true l ≡ fatal)
unfolding init begin_init with_counters
init_grown junk n many =
    let page = replicate (n * 16) junk in
    let sized : length page ≡ (0 + n) * 16 = length-replicate (n * 16) junk ∙ omega arith in
    let (out, run, size) = reset_counters_inside n 0 page sized in
    let (written, again, same) = reset_counters_inside n 0 out (size ∙ sized) in
    let l = with_counters (begin_init junk n true new_launcher) (some out) in
    let errors : length (grown_errors n new_launcher) ≡ n + 1 = first_errors n many in
    let kept = kept_page junk (suc n) l (errors ∙ omega arith) in
    (
      l,
      out,
      ap
            (λ p. reset_counters 0 n p >>= λ page.
              ok (with_counters (begin_init junk n true new_launcher) page))
            (first_page junk n many)
          ∙ ap (λ o. o >>= λ page. ok (with_counters (begin_init junk n true new_launcher) page))
              run,
      refl,
      size ∙ length-replicate (n * 16) junk,
      errors,
      kept,
      (written, again, reset_at_outside (n * 16) written (omega (arith, same, size, sized))),
      ap
            (λ p. reset_counters 0 (suc n) p >>= λ page.
              ok (with_counters (begin_init junk (suc n) true l) page))
            kept
          ∙ ap (λ o. o >>= λ page. ok (with_counters (begin_init junk (suc n) true l) page))
              (reset_counters_outside n 0 out (size ∙ sized)),
    )
