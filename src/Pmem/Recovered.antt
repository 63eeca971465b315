-- ===== src/Pmem/Recovered.antt =====
-- What `recover` and `create` of src/PmemBackend.cpp make, and on which disks.
use mochi_warabi.Prelude.{
  ℕ, zero, suc, ◌≡◌, ◌≢◌, refl, ap, ◌⊎◌, inl, inr, String, Bool, true, false, not, ◌&&◌, List, [],
  ◌∷◌, none, some, if◌then◌else◌, ◌==◌, arith,
}
use mochi_warabi.Run.{done, done-injective}
use mochi_warabi.Bytes.{Bytes}
use mochi_warabi.Result.{BoolResult, success_bool, fail_bool}
use mochi_warabi.Json.{Json}
use mochi_warabi.FileSystem.{FileSystem}
use mochi_warabi.Pmem.Setup.{Pools, with_pool, create, validate}

-- What the two tests of `validate` leave.
verdict :
    (file_exists override : Bool) (size : ℕ) (message message' : String)
    → (if not file_exists && size == 0
        then fail_bool message
        else if override && size == 0
        then fail_bool message'
        else success_bool).success
      ≡ true
    → ((file_exists ≡ true) × (override ≡ false))
      ⊎ (((file_exists && not override) ≡ false) × (size ≢ 0))
verdict true false size m m' h = inl (refl, refl)
verdict true true zero m m' h = absurd (cc)
verdict true true (suc n) m m' h = inr (refl, λ e. omega (arith, e))
verdict false override zero m m' h = absurd (cc)
verdict false override (suc n) m m' h = inr (refl, λ e. omega (arith, e))

module _ (J : Json) (F : FileSystem) (Heap : Type 0) (P : Pools Heap F.Disk) where
  open F use {Disk, exists, remove, create_parent}
  open P use {open_pool, create_pool}

  -- Once the files of a configuration have been found valid on a disk, `create` on that disk either
  -- opens a pool whose file is there and is to be kept, or makes one of a size that is not zero.
  pub create-validate :
      (d : Disk) (config : J.Value) (path : List ℕ) (size : ℕ) (override : Bool)
      → J.get_path config "path" ≡ done path
      → J.value_size config "create_if_missing_with_size" 0 ≡ done size
      → J.value_bool config "override_if_exists" false ≡ done override
      → J.violation "pmem target" config ≡ none
      → validate J F Heap P d config ≡ done success_bool
      → ((exists d path ≡ true)
          × (override ≡ false)
          × (create J F Heap P d config
              ≡ with_pool J F Heap P P.create_error config path (open_pool d path)))
        ⊎ ((size ≢ 0)
            × (d' : Disk) × (create J F Heap P d config
                ≡ with_pool J F Heap P P.create_error config path (create_pool d' path size)))
  unfolding create validate
  create-validate d config path size override e1 e2 e3 e4 v =
      let v' = rw (e4, e1) at v in
      elim (verdict (exists d path) override size _ _
        (ap (λ (r : BoolResult). r.success) (done-injective (rw (e2, e3) at v')))) [
          | inl (x, o) ↦ inl (x, o, rw (e1, e2) (rw e3 (rw (x, o) refl)))
          | inr (x, nz) ↦ inr (
            nz,
            create_parent (if exists d path && override then remove d path else d) path,
            rw (e1, e2) (rw e3 (rw x refl)),
          )
        ]

  -- What a target can be recovered from: one file, which is there, and whose pool opens.
  pub record IsRecoverable (d : Disk) (files : List (List ℕ)) : Type 0 where
    pub path : List ℕ
    pub pool : Heap × Bytes
    pub disk : Disk
    pub single : files ≡ path ∷ []
    pub present : exists d path ≡ true
    pub opened : open_pool d path ≡ (some pool, disk)
