-- ===== src/Shell/CardTests.antt =====
-- The shell with a card whose files are 40000 sevens, and a program that returns at once.
use criscv_hw.Prelude.{
  ℕ, ◌+◌, ◌*◌, ◌≡◌, refl, Bool, true, false, ◌&&◌, some, [], ◌∷◌, map, arith, leb, ltb, ◌==◌,
  if◌then◌else◌, Memory, Outside, List,
}
use criscv_hw.Prelude.Words.{half_at, word_at}
use criscv_hw.Prelude.Text.{codes}
use criscv_hw.Stdfn.FatFs.{FatFs, fr_ok}
use criscv_hw.Shell.World.{World, Env, is_word, returned, prog_base, prog_max}
use criscv_hw.Shell.Program.{find_bss, get_bss_header}
use criscv_hw.Shell.SdLoad.{sd_load}
use criscv_hw.Shell.MemTest.{mem_addr_test, rounds}
use criscv_hw.Shell.MemCheck.{mem_addr_test-passes}
use criscv_hw.Shell.LoadSafe.{Loads, sd_load-Loads}

abbrev between : ℕ → ℕ → ℕ → Bool
between buf n x = leb buf x && ltb x (buf + n)

abbrev sevens : FatFs ℕ Unit
sevens = record {
  readonly = true;
  f_open = λ name mode mem f v. record { result = fr_ok; fil = 0; volume = v };
  f_close = λ f v. record { result = fr_ok; fil = f; volume = v };
  f_read = λ buf n mem f v. record {
    result = fr_ok;
    count = n;
    fil = f + n;
    volume = v;
    mem = λ x. if between buf n x then 7 else mem x;
  };
  f_write = λ buf n mem f v. record { result = fr_ok; count = 0; fil = f; volume = v; mem = mem };
  f_lseek = λ p f v. record { result = fr_ok; fil = p; volume = v };
  f_truncate = λ f v. record { result = fr_ok; fil = f; volume = v };
  f_tell = λ f. f;
  f_size = λ f. 40000;
}

abbrev pub env : Env ℕ Unit Unit
env = record {
  fs = sevens;
  f_mount = λ v. (fr_ok, v);
  f_opendir = λ path v. record { result = fr_ok; value = tt; volume = v };
  f_readdir = λ d v. record {
    result = fr_ok;
    value = (record { fname = []; fattrib = 0; fsize = 0 }, tt);
    volume = v;
  };
  f_closedir = λ d v. v;
  f_chdir = λ path v. (fr_ok, v);
  f_getcwd = λ n v. record { result = fr_ok; value = b'/' ∷ []; volume = v };
  any_fil = 0;
  program = λ entry argv w. returned w;
  file_header = 0xC40000;
  line_buf = 0x1FFF000;
  cat_buf = 0x1FFE000;
}

-- `fileHeader` announces a data file of three bytes.
abbrev announced : Memory
announced = λ x. if x == 0xC40000 then 1 else if x == 0xC40018 then 3 else 0

abbrev pub world : World ℕ Unit
world = record {
  slots = λ i. record { fil = 0; used = false };
  volume = tt;
  mem = announced;
  line = map some (codes "abcdef");
  out = [];
  led = 0;
  led_state = 0;
  sd_mounted = true;
  pid = 0;
}

sevens_inside :
    (buf n : ℕ) (mem : Memory) (f : ℕ) (v : Unit {0}) (x : ℕ)
    → Outside buf n x
    → (env.fs.f_read buf n mem f v).mem x ≡ mem x
sevens_inside buf n mem f v x h = ground arith

sd_load-Loads_example :
    Loads env prog_base prog_max world.mem (sd_load env 512 prog_base prog_max 0 world)
sd_load-Loads_example = sd_load-Loads env 512 prog_base prog_max 0 world sevens_inside

-- An ELF file of two section headers of 40 bytes at 0x10100, the second of which is named ".bss".
abbrev elf_bytes : List (ℕ × ℕ)
elf_bytes =
    (0x10021, 1)
    ∷ (0x1002E, 40)
    ∷ (0x10030, 2)
    ∷ (0x10111, 2)
    ∷ (0x10128, 1)
    ∷ (0x10201, b'.')
    ∷ (0x10202, b'b')
    ∷ (0x10203, b's')
    ∷ (0x10204, b's')
    ∷ []

abbrev memory_of : List (ℕ × ℕ) → Memory
memory_of [] x = 0
memory_of ((a, v) ∷ rest) x = if x == a then v else memory_of rest x

elf_bss : get_bss_header 0x10000 (memory_of elf_bytes) ≡ some 0x10128
unfolding get_bss_header find_bss word_at half_at is_word
elf_bss = refl

-- A memory whose word at 0x10004 reads as 0.
abbrev defective : Memory → ℕ → ℕ
defective mem a = if a == 0x10004 then 0 else word_at mem a

mem_addr_test-passes_example :
    (w' : World ℕ Unit) × (mem_addr_test word_at 0x10000 0x10010 true world ≡ some (0, w'))
    × ((x : ℕ) → Outside 0x10000 (4 * rounds 0x10000 0x10010) x → w'.mem x ≡ world.mem x)
mem_addr_test-passes_example =
    mem_addr_test-passes 0x10000 0x10010 true world (omega arith) (omega arith)
