-- ===== src/Shell/ShowTests.antt =====
-- `cat` of a short file, and `ls` of a directory of two entries.
use criscv_hw.Prelude.{
  ℕ, zero, suc, ◌+◌, ◌-◌, ◌<◌, ◌≤◌, ◌≡◌, ◌⊎◌, refl, ap, inl, inr, true, false, none, some, List, [],
  ◌∷◌, ◌++◌, ◌&&◌, leb, ltb, if◌then◌else◌, length, get_or, reverse, arith, Memory, Outside,
  Bool-cases, replicate, length-replicate,
}
use criscv_hw.Prelude.Text.{codes}
use criscv_hw.Stdfn.FatFs.{FatFs, fr_ok}
use criscv_hw.Shell.World.{World, Env, FileInfo, itoa, digits, returned, prog_base}
use criscv_hw.Shell.Card.{entry_text, is_empty, ls_cmd, cat_cmd}
use criscv_hw.Shell.Lists.{Yields, lines_of, ls_cmd-sends}
use criscv_hw.Shell.SdLoad.{chunk_loop}
use criscv_hw.Shell.LoadAll.{AllRead, chunk_loop-AllRead}
use criscv_hw.Shell.Shows.{Given, cat_cmd-sends}

-- The first `n` items, and the others.
abbrev split : ℕ → List ℕ → List ℕ × List ℕ
split zero xs = ([], xs)
split (suc n) [] = ([], [])
split (suc n) (x ∷ xs) = let r = split n xs in (x ∷ r.0, r.1)

split-append : (n : ℕ) (xs : List ℕ) → xs ≡ (split n xs).0 ++ (split n xs).1
split-append zero xs = refl
split-append (suc n) [] = refl
split-append (suc n) (x ∷ xs) = ap (λ t. x ∷ t) (split-append n xs)

split-full :
    (n : ℕ) (xs : List ℕ)
    → (length (split n xs).0 ≡ n) ⊎ ((length (split n xs).0 < n) × ((split n xs).1 ≡ []))
split-full zero xs = inl refl
split-full (suc n) [] = inr (omega arith, refl)
split-full (suc n) (x ∷ xs) = elim (split-full n xs) [
  | inl e ↦ inl (ap suc e)
  | inr (l, e) ↦ inr (omega (arith, l), e)
]

-- The memory with a list at `buf`.
abbrev put_list : List ℕ → ℕ → Memory → Memory
put_list xs buf mem =
    λ x. if leb buf x && ltb x (buf + length xs) then get_or xs (x - buf) 0 else mem x

-- A file is what is left of it.
abbrev lists : FatFs (List ℕ) Unit
lists = record {
  readonly = true;
  f_open = λ name mode mem f v. record { result = fr_ok; fil = codes "Hello"; volume = v };
  f_close = λ f v. record { result = fr_ok; fil = f; volume = v };
  f_read = λ buf n mem f v. record {
    result = fr_ok;
    count = length (split n f).0;
    fil = (split n f).1;
    volume = v;
    mem = put_list (split n f).0 buf mem;
  };
  f_write = λ buf n mem f v. record { result = fr_ok; count = 0; fil = f; volume = v; mem = mem };
  f_lseek = λ p f v. record { result = fr_ok; fil = f; volume = v };
  f_truncate = λ f v. record { result = fr_ok; fil = f; volume = v };
  f_tell = λ f. 0;
  f_size = λ f. length f;
}

abbrev info : List ℕ → ℕ → ℕ → FileInfo
info fname fattrib fsize = record { fname = fname; fattrib = fattrib; fsize = fsize }

-- A directory is what is left of it.
abbrev next_entry : List FileInfo → FileInfo × List FileInfo
next_entry [] = (info [] 0 0, [])
next_entry (e ∷ es) = (e, es)

abbrev up_to_empty : List FileInfo → List FileInfo
up_to_empty [] = []
up_to_empty (e ∷ es) = if is_empty e.fname then [] else e ∷ up_to_empty es

abbrev env : Env (List ℕ) (List FileInfo) Unit
env = record {
  fs = lists;
  f_mount = λ v. (fr_ok, v);
  f_opendir = λ path v. record {
    result = fr_ok;
    value = info (codes "boot.elf") 0x20 4096 ∷ info (codes "games") 0x10 0 ∷ [];
    volume = v;
  };
  f_readdir = λ d v. record { result = fr_ok; value = next_entry d; volume = v };
  f_closedir = λ d v. v;
  f_chdir = λ path v. (fr_ok, v);
  f_getcwd = λ n v. record { result = fr_ok; value = b'/' ∷ []; volume = v };
  any_fil = [];
  program = λ entry argv w. returned w;
  file_header = 0xC40000;
  line_buf = 0x1FFF000;
  cat_buf = 0x1FFE000;
}

abbrev world : World (List ℕ) Unit
world = record {
  slots = λ i. record { fil = []; used = false };
  volume = tt;
  mem = λ x. 0;
  line = [];
  out = [];
  led = 0;
  led_state = 0;
  sd_mounted = true;
  pid = 0;
}

put_list-stored :
    (xs : List ℕ) (buf : ℕ) (mem : Memory) (j : ℕ)
    → j < length xs
    → put_list xs buf mem (buf + j) ≡ get_or xs j 0
put_list-stored xs buf mem j l =
    let here : buf + j - buf ≡ j = omega arith in
    let inside : (leb buf (buf + j) && ltb (buf + j) (buf + length xs)) ≡ true = ground arith in
    rw (inside, here)

lists_read :
    (buf n : ℕ) (mem : Memory) (f : List ℕ) (v : Unit {0})
    → Given env (λ f v. f) buf n f (env.fs.f_read buf n mem f v)
lists_read buf n mem f v = record {
  bytes = (split n f).0;
  left_eq = split-append n f;
  result_eq = refl;
  count_eq = refl;
  stored = put_list-stored (split n f).0 buf mem;
  full = split-full n f;
}

cat_cmd-sends_example :
    (w' : World (List ℕ) Unit) × (cat_cmd env 512 world ≡ some w')
    × (w'.out ≡ b'\n' ∷ (reverse (codes "Hello") ++ []))
cat_cmd-sends_example = cat_cmd-sends env (λ f v. f) 512 world lists_read refl refl (omega arith)

-- A file of 16389 bytes, so of two chunks.
abbrev long_file : List ℕ
long_file = replicate 16389 7

long_file-length : length long_file ≡ 16389
long_file-length = length-replicate {A = ℕ} 16389 7

lists_inside :
    (buf n : ℕ) (mem : Memory) (f : List ℕ) (v : Unit {0}) (x : ℕ)
    → Outside buf n x
    → (env.fs.f_read buf n mem f v).mem x ≡ mem x
lists_inside buf n mem f v x out =
    let few : length (split n f).0 ≤ n = elim (split-full n f) [
      | inl e ↦ omega arith
      | inr (l, e) ↦ omega arith
    ] in
    let past : (leb buf x && ltb x (buf + length (split n f).0)) ≡ false = ground arith in rw past

chunk_loop-AllRead_example :
    AllRead env
      (λ f v. f)
      prog_base
      16389
      0
      long_file
      (chunk_loop env 2 prog_base 16389 0 fr_ok long_file world)
chunk_loop-AllRead_example =
    chunk_loop-AllRead env (λ f v. f) 2 prog_base 16389 0 fr_ok long_file world lists_inside
      lists_read (omega arith) (omega (arith, long_file-length)) (omega arith)

yields :
    (d : List FileInfo) (v : Unit {0})
    → Yields env (λ d v. up_to_empty d) (up_to_empty d) (env.f_readdir d v)
yields [] v = refl
yields (e ∷ es) v = elim (Bool-cases (is_empty e.fname)) [
  | inl t ↦ rw t t
  | inr t ↦ rw t (refl, t, refl)
]

ls_cmd-sends_example :
    (w' : World (List ℕ) Unit) × (ls_cmd env none world ≡ some w')
    × (w'.out
        ≡ reverse (lines_of (info (codes "boot.elf") 0x20 4096 ∷ info (codes "games") 0x10 0 ∷ []))
          ++ [])
ls_cmd-sends_example =
    ls_cmd-sends env (λ d v. up_to_empty d) none world (λ d v. (refl, yields d v)) refl refl
      (omega arith)

listing :
    lines_of (info (codes "boot.elf") 0x20 4096 ∷ info (codes "games") 0x10 0 ∷ [])
    ≡ codes "      4096 boot.elf\n     <DIR> games\n"
unfolding lines_of entry_text itoa digits
listing = refl
