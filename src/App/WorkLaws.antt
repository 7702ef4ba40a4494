-- ===== src/App/WorkLaws.antt =====
-- How many work jobs the update of the work cache starts.
use camonanowallet.Base.{
  false, ℕ, ◌+◌, ◌≤◌, ◌≡◌, refl, sym, true, ◌⊎◌, ◌||◌, ◌==◌, All, leb→le, inl, inr, Bool-cases,
  List, [], ◌∷◌, leb, arith, if◌then◌else◌,
}
use mathlib.Core.Path.{subst}
use camonanowallet.Nano.{Nano, Bytes32}
use camonanowallet.Rpc.World.{World, Env}
use camonanowallet.Rpc.Work.{contains_key, n_requests, request_work}
use camonanowallet.App.Session.{request_each}

-- the greater of two numbers of jobs
abbrev pub at_most : ℕ → ℕ → ℕ
at_most limit before = if leb limit before then before else limit

module _ (n : Nano) (env : Env n) where
  request_work-n_requests :
      (hash : Bytes32) (w : World n)
      → n_requests n env (request_work n env hash w) ≤ 1 + n_requests n env w
  unfolding n_requests request_work
  request_work-n_requests hash w = elim (Bool-cases (contains_key w.handles hash)) [
    | inl e ↦ rw (request_work, e) (omega arith)
    | inr e ↦ rw (request_work, e) (omega arith)
  ]

  -- two jobs run at most, or as many as before if these were more
  request_each-at_most :
      (hashes : List Bytes32) (w : World n)
      → n_requests n env (request_each n env hashes w) ≤ at_most 2 (n_requests n env w)
  unfolding request_each
  request_each-at_most [] w = ground arith
  request_each-at_most (hash ∷ hashes) w = elim (Bool-cases (leb 2 (n_requests n env w))) [
    | inl e ↦ rw (request_each, e) (omega arith)
    | inr e ↦
        rw (request_each, e)
          (ground (
            arith,
            request_work-n_requests hash w,
            request_each-at_most hashes (request_work n env hash w),
          ))
  ]

  request_work-contains_key :
      (hash h : Bytes32) (w : World n)
      → contains_key (request_work n env hash w).handles h ≡ hash == h || contains_key w.handles h
  unfolding request_work
  request_work-contains_key hash h w = elim (Bool-cases (contains_key w.handles hash)) [
    | inl e ↦ rw (request_work, e) (grind arith)
    | inr e ↦ rw (request_work, e) refl
  ]

  request_work-published :
      (hash : Bytes32) (w : World n) → (request_work n env hash w).published ≡ w.published
  unfolding request_work
  request_work-published hash w = ground arith

  -- the jobs after the requests: those of before go on, and the others are of the hashes
  abbrev Continues : List Bytes32 → World n → World n → Type 0
  Continues hashes w w' =
      (h : Bytes32)
      → (contains_key w.handles h ≡ true → contains_key w'.handles h ≡ true)
        × (contains_key w'.handles h ≡ true
            → contains_key w.handles h || contains_key hashes h ≡ true)

  request_each-Continues :
      (hashes : List Bytes32) (w : World n) → Continues hashes w (request_each n env hashes w)
  unfolding request_each
  request_each-Continues [] w h = (λ k. k, λ k. rw k)
  request_each-Continues (hash ∷ hashes) w h = elim (Bool-cases (leb 2 (n_requests n env w))) [
    | inl e ↦ rw (request_each, e) (λ k. k, λ k. rw k)
    | inr e ↦
        let (kept, asked) = request_each-Continues hashes (request_work n env hash w) h in
        let has = request_work-contains_key hash h w in
        rw (request_each, e) (λ k. kept (ground (arith, has)), λ k. ground (arith, asked, has))
  ]

  request_each-next :
      (hash : Bytes32) (hashes : List Bytes32) (w : World n)
      → leb 2 (n_requests n env w) ≡ false
      → request_each n env (hash ∷ hashes) w ≡ request_each n env hashes (request_work n env hash w)
  unfolding request_each
  request_each-next hash hashes w e = rw e refl

  request_each-stop :
      (hash : Bytes32) (hashes : List Bytes32) (w : World n)
      → leb 2 (n_requests n env w) ≡ true
      → request_each n env (hash ∷ hashes) w ≡ w
  unfolding request_each
  request_each-stop hash hashes w e = rw e refl

  abbrev pub Enough : List Bytes32 → World n → Type 0
  Enough hashes w =
      (2 ≤ n_requests n env w) ⊎ All (λ hash. contains_key w.handles hash ≡ true) hashes

  Enough-same :
      (hashes : List Bytes32) (w w' : World n) → w ≡ w' → Enough hashes w' → Enough hashes w
  Enough-same hashes w w' e h = subst (Enough hashes) (sym e) h

  with_first :
      (hash : Bytes32) (hashes : List Bytes32) (w : World n)
      → contains_key w.handles hash ≡ true
      → Enough hashes w
      → Enough (hash ∷ hashes) w
  with_first hash hashes w has (inl two) = inl two
  with_first hash hashes w has (inr all) = inr (has, all)

  request_each-Enough :
      (hashes : List Bytes32) (w : World n) → Enough hashes (request_each n env hashes w)
  request_each-Enough [] w = inr tt
  request_each-Enough (hash ∷ hashes) w = elim (Bool-cases (leb 2 (n_requests n env w))) [
    | inl e ↦
        Enough-same (hash ∷ hashes) _ _ (request_each-stop hash hashes w e) (inl (leb→le _ _ e))
    | inr e ↦
        let w' = request_work n env hash w in
        let has : contains_key w'.handles hash ≡ true =
          ground (arith, request_work-contains_key hash hash w) in
        Enough-same (hash ∷ hashes) _ _ (request_each-next hash hashes w e) (
          with_first hash hashes (request_each n env hashes w')
            ((request_each-Continues hashes w' hash).0 has) (request_each-Enough hashes w'))
  ]

  request_each-published :
      (hashes : List Bytes32) (w : World n) → (request_each n env hashes w).published ≡ w.published
  unfolding request_each
  request_each-published [] w = refl
  request_each-published (hash ∷ hashes) w = ground (
    arith,
    request_each-published hashes (request_work n env hash w),
    request_work-published hash w,
  )

  -- What the requests leave: two jobs run at most, or as many as before if these were more; two run
  -- at least, or each of the hashes has a job; the jobs of before go on, and a job that is new is that
  -- of one of the hashes.
  pub record Requested (hashes : List Bytes32) (w w' : World n) : Type 0 where
    pub limit : n_requests n env w' ≤ at_most 2 (n_requests n env w)
    pub enough : Enough hashes w'
    pub kept :
        (hash : Bytes32) → contains_key w.handles hash ≡ true → contains_key w'.handles hash ≡ true
    pub asked :
        (hash : Bytes32)
        → contains_key w'.handles hash ≡ true
        → contains_key w.handles hash || contains_key hashes hash ≡ true
    pub handed : w'.published ≡ w.published

  -- The update of the work cache requests work for the hashes until two jobs run: afterwards two
  -- run at most, or as many as before if these were more; and two run at least, or each of the
  -- hashes has a job. The jobs of before go on, a job that is new is that of one of the hashes, and
  -- no block goes out.
  pub request_each-Requested :
      (hashes : List Bytes32) (w : World n) → Requested hashes w (request_each n env hashes w)
  request_each-Requested hashes w = record {
    limit = request_each-at_most hashes w;
    enough = request_each-Enough hashes w;
    kept = λ hash. (request_each-Continues hashes w hash).0;
    asked = λ hash. (request_each-Continues hashes w hash).1;
    handed = request_each-published hashes w;
  }
