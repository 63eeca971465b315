-- ===== src/AbtIo/Reliable.antt =====
-- The regions of src/AbtIOBackend.cpp over a file whose operations complete.
use mochi_warabi.Prelude.{
  ℕ, ◌+◌, ◌≤◌, ◌<◌, ◌≡◌, refl, sym, ap, ◌∙◌, Bool, true, false, List, [], ◌∷◌, none, length, arith,
  word, wrap, wrap_small, pos, String,
}
use mochi_warabi.Run.{done, >>=-eq-done, done-injective}
use mochi_warabi.Bytes.{Bytes, slice, patch, load, store}
use mochi_warabi.Bytes.Laws.{length-slice, length-patch, load_done}
use mochi_warabi.Result.{success_bool}
use mochi_warabi.Segments.{Segment, shift, copy_out, sum, InBounds, ApartFrom, Disjoint}
use mochi_warabi.Segments.Scatter.{scatter, length-scatter, slice-scatter_apart}
use mochi_warabi.Segments.Copy.{copy_out-scatter}
use mochi_warabi.AbtIo.Region.{
  AbtIo, AbtIoTarget, AbtIoRegion, Completion, any_wait_failed, last_error, outcome, issue_writes,
  issue_reads, sync, write, read,
}

-- An operation that moved all of its `n` bytes.
abbrev pub complete : ℕ → Completion
complete n = record { wait = pos 0; ret = pos n }

-- Inside a file that is long enough, a write puts its bytes at the offset, a read returns those at
-- the offset, and a synchronization keeps the bytes.
pub record IsReliable (A : AbtIo) : Type 1 where
  pub content : A.File → Bytes
  pub pwritten : A.File → Bytes → ℕ → A.File
  pub synced : A.File → A.File
  pub pwrite_nb_lem :
      (f : A.File) (d : Bytes) (o : ℕ)
      → o + length d ≤ length (content f)
      → A.pwrite_nb f d o ≡ (complete (length d), pwritten f d o)
  pub content-pwritten :
      (f : A.File) (d : Bytes) (o : ℕ)
      → o + length d ≤ length (content f)
      → content (pwritten f d o) ≡ patch (content f) o d
  pub pread_nb_lem :
      (f : A.File) (n o : ℕ)
      → o + n ≤ length (content f)
      → A.pread_nb f n o ≡ (complete n, slice (content f) o n)
  pub fdatasync_lem : (f : A.File) → A.fdatasync f ≡ (pos 0, synced f)
  pub content-synced : (f : A.File) → content (synced f) ≡ content f

-- The operations of a request, all of them complete.
abbrev completed : List Segment → List Completion
completed [] = []
completed ((o, n) ∷ ss) = complete n ∷ completed ss

none_failed : (ss : List Segment) → any_wait_failed (completed ss) ≡ false
unfolding any_wait_failed
none_failed [] = refl
none_failed (s ∷ ss) = none_failed ss

no_error : (ss : List Segment) → last_error (completed ss) ≡ none
unfolding last_error
no_error [] = refl
no_error (s ∷ ss) = rw (no_error ss) refl

module _ (A : AbtIo) (L : IsReliable A) where
  open L use {
    content, pwritten, synced, pwrite_nb_lem, content-pwritten, pread_nb_lem, fdatasync_lem,
    content-synced,
  }

  outcome_complete : (ss : List Segment) (e : String) → outcome A e (completed ss) ≡ success_bool
  unfolding outcome
  outcome_complete ss e = rw (none_failed ss, no_error ss) refl

  issue_writes-scatter :
      (ss : List Segment) (f : A.File) (p : ℕ) (d : Bytes) (off : ℕ)
      → InBounds (length (content f)) (shift p ss)
      → length (content f) < word
      → off + sum (shift p ss) ≤ length d
      → length d < word
      → (f' : A.File) × (issue_writes A f p ss d off ≡ done (completed ss, f'))
        × (content f' ≡ scatter (shift p ss) d off (content f))
  unfolding issue_writes scatter shift
  issue_writes-scatter [] f p d off h w k v = (f, refl, refl)
  issue_writes-scatter ((o, n) ∷ ss) f p d off h w k v =
      let c = slice d off n in
      let s = length-slice d off n (omega arith) in
      let fits : p + o + length c ≤ length (content f) = omega (arith, h.0) in
      let f1 = pwritten f c (p + o) in
      let e1 = content-pwritten f c (p + o) fits in
      let l1 : length (content f1) ≡ length (content f) =
        ap (λ (b : Bytes). length b) e1 ∙ length-patch (content f) (p + o) c fits in
      let (f', ends, e') =
        issue_writes-scatter ss f1 p d (off + n) (rw l1 h.1) (omega arith) (omega arith) v in
      (
        f',
        rw
            (
              load_done d off n (omega arith),
              wrap_small (p + o) (omega (arith, h.0)),
              pwrite_nb_lem f c (p + o) fits ∙ ap (λ (k : ℕ). (complete k, f1)) s,
              wrap_small (off + n) (omega arith),
            )
            (rw ends refl),
        e' ∙ ap (scatter (shift p ss) d (off + n)) e1,
      )

  issue_reads-copy_out :
      (ss : List Segment) (f : A.File) (p : ℕ) (off : ℕ) (ptr ptr' : Bytes)
      → InBounds (length (content f)) (shift p ss)
      → length (content f) < word
      → copy_out (shift p ss) (content f) off ptr ≡ done ptr'
      → issue_reads A f p ss off ptr ≡ done (completed ss, ptr')
  unfolding issue_reads copy_out shift
  issue_reads-copy_out [] f p off ptr ptr' h w e = ap (λ x. done ([], x)) (done-injective e)
  issue_reads-copy_out ((o, n) ∷ ss) f p off ptr ptr' h w e =
      let (c, e1, h1) = >>=-eq-done (load (content f) (p + o) n) _ e in
      let (ptr1, e2, h2) = >>=-eq-done (store ptr off c) _ h1 in
      let same : c ≡ slice (content f) (p + o) n =
        done-injective (sym e1 ∙ load_done (content f) (p + o) n h.0) in
      let rest = issue_reads-copy_out ss f p (wrap (off + n)) ptr1 ptr' h.1 w h2 in
      rw (wrap_small (p + o) (omega (arith, h.0)), pread_nb_lem f n (p + o) h.0)
        (rw (sym same) (rw e2 (rw rest refl)))

  -- A request over a file shorter than `2 ^ 64`, to disjoint places inside it.
  pub record Fits (t : AbtIoTarget A.File) (r : AbtIoRegion) (ss : List Segment) (d : Bytes)
      : Type 0 where
    pub open_lem : t.is_open ≡ true
    pub within : InBounds (length (content t.file)) (shift r.offset ss)
    pub apart : Disjoint (shift r.offset ss)
    pub size : sum (shift r.offset ss) ≡ length d
    pub in_memory : length d < word
    pub in_file : length (content t.file) < word

  -- The bytes of the file after a write, and the rest of the target as it was.
  write-scatter :
      (t : AbtIoTarget A.File) (r : AbtIoRegion) (ss : List Segment) (d : Bytes) (persist : Bool)
      → Fits t r ss d
      → (f : A.File) × (write A t r ss d persist ≡ done (success_bool, record t { file = f }))
        × (content f ≡ scatter (shift r.offset ss) d 0 (content t.file))
  unfolding write sync
  write-scatter t r ss d false h =
      let size = h.size in
      let (f, ends, e) =
        issue_writes-scatter ss t.file r.offset d 0 h.within h.in_file (omega arith) h.in_memory in
      (f, rw h.open_lem (rw ends (rw (outcome_complete ss) refl)), e)
  write-scatter t r ss d true h =
      let size = h.size in
      let (f, ends, e) =
        issue_writes-scatter ss t.file r.offset d 0 h.within h.in_file (omega arith) h.in_memory in
      (
        synced f,
        rw h.open_lem (rw ends (rw (outcome_complete ss) (rw (fdatasync_lem f) refl))),
        content-synced f ∙ e,
      )

  -- On a reliable file, a write to disjoint places of a region succeeds; a read of the places
  -- returns what was written, into any buffer of the size; and the file keeps its length, every
  -- byte outside the places, and the lock that the request holds.
  pub read-write_file :
      (t : AbtIoTarget A.File) (r : AbtIoRegion) (ss : List Segment) (d buf : Bytes)
      (persist : Bool) (p m : ℕ)
      → Fits t r ss d
      → length buf ≡ length d
      → ApartFrom p m (shift r.offset ss)
      → (t' : AbtIoTarget A.File) × (write A t r ss d persist ≡ done (success_bool, t'))
        × (read A t' r ss buf ≡ done (success_bool, d, t'))
        × (length (content t'.file) ≡ length (content t.file))
        × (slice (content t'.file) p m ≡ slice (content t.file) p m)
        × (t'.lock ≡ t.lock)
  unfolding read
  read-write_file t r ss d buf persist p m h l a =
      let places = shift r.offset ss in
      let b = content t.file in
      let size = h.size in
      let (f, ends, e) = write-scatter t r ss d persist h in
      let le : length (content f) ≡ length b =
        ap (λ (x : Bytes). length x) e ∙ length-scatter places d 0 b h.within (omega arith) in
      let copied =
        ap (λ (x : Bytes). copy_out places x 0 buf) e
        ∙ copy_out-scatter places d b buf h.within h.apart h.size h.in_memory l in
      let issued =
        issue_reads-copy_out ss f r.offset 0 buf d (rw le h.within) (omega arith) copied in
      (
        record t { file = f },
        ends,
        rw h.open_lem (rw issued (rw (outcome_complete ss) refl)),
        le,
        ap (λ (x : Bytes). slice x p m) e
            ∙ slice-scatter_apart places d 0 b p m h.within (omega arith) a,
        refl,
      )
