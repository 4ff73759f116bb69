-- ===== src/Shell/LoadAll.antt =====
-- What the loop of `sd_load` of bootbin/boot.c brings into the memory.
use criscv_hw.Prelude.{
  ℕ, zero, suc, ◌+◌, ◌-◌, ◌*◌, ◌≤◌, ◌<◌, ◌≡◌, ◌⊎◌, refl, sym, ap, ◌∙◌, inl, inr, true, List, [],
  ◌∷◌, ◌++◌, ◌&&◌, arith, ltb, ◌==◌, ==_iff, Bool-cases, length, length-append, get_or,
}
use criscv_hw.Stdfn.FatFs.{Fresult, Moved}
use criscv_hw.Stdfn.Calls.{is_ok}
use criscv_hw.Shell.World.{World, Env, sendchar}
use criscv_hw.Shell.Shows.{Given, ReadsOn}
use criscv_hw.Shell.SdLoad.{chunk_max, chunk_of, Chunks, chunk_loop}
use criscv_hw.Shell.LoadSafe.{ReadsInside, chunk_of-le, chunk_of_lem}

get_or-left : (xs ys : List ℕ) (j : ℕ) → j < length xs → get_or (xs ++ ys) j 0 ≡ get_or xs j 0
get_or-left [] ys j lt = absurd (omega arith)
get_or-left (x ∷ xs) ys zero lt = refl
get_or-left (x ∷ xs) ys (suc j) lt = get_or-left xs ys j (omega arith)

get_or-right : (xs ys : List ℕ) (j : ℕ) → get_or (xs ++ ys) (length xs + j) 0 ≡ get_or ys j 0
get_or-right [] ys j = ap (λ k. get_or ys k 0) (omega arith)
get_or-right (x ∷ xs) ys j =
    let e : suc (length xs) + j ≡ suc (length xs + j) = omega arith in
    ap (λ k. get_or (x ∷ (xs ++ ys)) k 0) e ∙ get_or-right xs ys j

lt_or_past : (j n : ℕ) → (j < n) ⊎ ((i : ℕ) × (j ≡ n + i))
lt_or_past j zero = inr (j, omega arith)
lt_or_past zero (suc n) = inl (omega arith)
lt_or_past (suc j) (suc n) = elim (lt_or_past j n) [
  | inl l ↦ inl (omega arith)
  | inr (i, e) ↦ inr (i, omega arith)
]

module _ {Fil Dir Volume : Type 0} (env : Env Fil Dir Volume) where
  module _ (rest : Fil → Volume → List ℕ) where
    -- The rest of the file after a full read.
    rest-read :
        (buf n : ℕ) (left : List ℕ) (m : Moved Fil Volume)
        → Given env rest buf n left m
        → n ≤ length left
        → (m.count ≡ n) × (length left ≡ n + length (rest m.fil m.volume))
    rest-read buf n left m g h =
        let both : length left ≡ length g.bytes + length (rest m.fil m.volume) =
          ap length g.left_eq ∙ length-append g.bytes (rest m.fil m.volume) in
        elim g.full [
          | inl e ↦ (omega (arith, g.count_eq), omega arith)
          | inr (lt, none_left) ↦ absurd (omega (arith, ap length none_left))
        ]

    -- The chunks of the loop from `done` on leave what is before them.
    chunk_loop-before :
        (fuel base size done : ℕ) (fr : Fresult) (f : Fil) (w : World Fil Volume) (x : ℕ)
        → ReadsInside env
        → x < base + done
        → (chunk_loop env fuel base size done fr f w).world.mem x ≡ w.mem x
    unfolding chunk_loop sendchar
    chunk_loop-before zero base size done fr f w x inside h = refl
    chunk_loop-before (suc fuel) base size done fr f w x inside h =
        let m = env.fs.f_read (base + done) (chunk_of size done) w.mem f w.volume in
        let kept : m.mem x ≡ w.mem x =
          inside (base + done) (chunk_of size done) w.mem f w.volume x (inl h) in
        elim (Bool-cases (ltb done size)) [
          | inr e ↦ rw (chunk_loop, e)
          | inl e ↦ elim (Bool-cases (is_ok m.result && (m.count == chunk_of size done))) [
            | inr g ↦ rw (chunk_loop, e, g) kept
            | inl g ↦
                rw (chunk_loop, e, g)
                  (chunk_loop-before fuel base size (done + chunk_of size done) m.result m.fil _ x
                      inside (omega arith)
                    ∙ kept)
          ]
        ]

    -- All `size` bytes are read: `left` are those of the file that were to come.
    pub record AllRead (base size done : ℕ) (left : List ℕ) (c : Chunks Fil Volume) : Type 0 where
      pub done_eq : c.done ≡ size
      pub stored : (j : ℕ) → j < size - done → c.world.mem (base + done + j) ≡ get_or left j 0

    get_or-read :
        (buf n j : ℕ) (left : List ℕ) (m : Moved Fil Volume)
        → Given env rest buf n left m
        → n ≤ length left
        → (j < n → m.mem (buf + j) ≡ get_or left j 0)
          × (get_or left (n + j) 0 ≡ get_or (rest m.fil m.volume) j 0)
    get_or-read buf n j left m g h =
        let full = rest-read buf n left m g h in
        let len : length g.bytes ≡ n = omega (arith, full.0, g.count_eq) in
        (
          (λ lt.
              let lt' : j < length g.bytes = omega arith in
              g.stored j lt'
              ∙ (sym (get_or-left g.bytes (rest m.fil m.volume) j lt')
                  ∙ ap (λ t. get_or t j 0) (sym g.left_eq))),
          ap (λ t. get_or t (n + j) 0) g.left_eq
              ∙ (ap (λ k. get_or (g.bytes ++ rest m.fil m.volume) (k + j) 0) (sym len)
                  ∙ get_or-right g.bytes (rest m.fil m.volume) j),
        )

    -- Where `f_read` does as ff.h says and the card does not fail, and the file has the bytes that
    -- are still to come, the loop reads all of `size` bytes and puts those of the file into the
    -- region, in their order; fuel for that many chunks of 16 KB is enough.
    pub chunk_loop-AllRead :
        (fuel base size done : ℕ) (fr : Fresult) (f : Fil) (w : World Fil Volume)
        → ReadsInside env
        → ReadsOn env rest
        → done ≤ size
        → size ≤ done + length (rest f w.volume)
        → size ≤ done + fuel * chunk_max
        → AllRead base size done (rest f w.volume) (chunk_loop env fuel base size done fr f w)
    unfolding chunk_loop chunk_of sendchar
    chunk_loop-AllRead zero base size done fr f w inside reads le has h = record {
      done_eq = omega arith;
      stored = λ j lt. absurd (omega arith);
    }
    chunk_loop-AllRead (suc fuel) base size done fr f w inside reads le has h =
        elim (Bool-cases (ltb done size)) [
          | inr e ↦
              rw (chunk_loop, e)
                (record { done_eq = ground arith; stored = λ j lt. absurd (ground arith) })
          | inl e ↦
              let chunk : ℕ = chunk_of size done in
              let m = env.fs.f_read (base + done) chunk w.mem f w.volume in
              let given = reads (base + done) chunk w.mem f w.volume in
              let small = chunk_of-le size done in
              let fits : chunk ≤ length (rest f w.volume) = omega arith in
              let full = rest-read (base + done) chunk (rest f w.volume) m given fits in
              let good : (is_ok m.result && (m.count == chunk)) ≡ true =
                rw (given.result_eq, full.0, (==_iff chunk chunk).1 refl) in
              let sent = sendchar 88 (record w { volume = m.volume; mem = m.mem }) in
              let more =
                chunk_loop-AllRead fuel base size (done + chunk) m.result m.fil sent inside reads
                  (omega arith) (omega (arith, full.1)) (next (ground arith)) in
              rw (chunk_loop, e, good)
                (record {
                  done_eq = more.done_eq;
                  stored = λ j lt. elim (lt_or_past j chunk) [
                    | inl under ↦
                        chunk_loop-before fuel base size (done + chunk) m.result m.fil sent
                          (base + done + j) inside (omega arith)
                        ∙ (get_or-read (base + done) chunk j (rest f w.volume) m given fits).0 under
                    | inr (i, eq) ↦ rw eq (
                        ap
                          (chunk_loop env fuel base size (done + chunk) m.result m.fil
                            sent).world.mem
                          (omega arith)
                        ∙ (more.stored i (omega arith)
                            ∙ sym
                                (get_or-read (base + done) chunk i (rest f w.volume) m given
                                  fits).1))
                  ];
                })
        ]
      where
        next : done < size → size ≤ done + chunk_of size done + fuel * chunk_max
        next lt = ground (arith, chunk_of_lem size done)
