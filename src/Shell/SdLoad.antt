-- ===== src/Shell/SdLoad.antt =====
-- bootbin/boot.c: `sd_load`, which reads a file of the card into memory, and its two commands.
use criscv_hw.Prelude.{
  ℕ, zero, suc, ◌+◌, ◌-◌, ◌%◌, ◌^◌, Bool, true, false, not, ◌&&◌, List, [], ◌∷◌, ◌++◌, ltb, ◌==◌,
  if◌then◌else◌, Memory, store,
}
use criscv_hw.Prelude.Words.{store_dword}
use criscv_hw.Prelude.Int.{to_int}
use criscv_hw.Prelude.Text.{codes}
use criscv_hw.Stdfn.FatFs.{Fresult}
use criscv_hw.Stdfn.Files.{fa_read}
use criscv_hw.Stdfn.Calls.{is_ok}
use criscv_hw.Shell.World.{
  World, Env, Next, resume, sendchar, sendstring, itoa, strncpy, type_at, name_at, length_at,
  prog_base, prog_max, data_base, data_max,
}
use criscv_hw.Shell.Card.{send_fr, sd_ready}
use criscv_hw.Shell.Program.{after_load}

abbrev pub chunk_max : ℕ
chunk_max = 0x4000

-- `size - done`, at most 16 KB.
unfoldable pub chunk_of : ℕ → ℕ → ℕ
chunk_of size done = if ltb chunk_max (size - done) then chunk_max else size - done

-- What the loop leaves: `done`, the last result, the file and the rest.
pub record Chunks (Fil Volume : Type 0) : Type 0 where
  pub done : ℕ
  pub fr : Fresult
  pub fil : Fil
  pub world : World Fil Volume

-- A file of a 32-bit size has at most so many chunks.
abbrev pub chunk_fuel : ℕ
chunk_fuel = 262144

-- `fileHeader` for a file from the card: at most 19 bytes of the name, and a NUL.
unfoldable pub set_header : ℕ → ℕ → ℕ → ℕ → Memory → Memory
set_header header fname type size mem = store_dword (length_at header) size (
    store (store (strncpy 19 (name_at header) false fname mem) (name_at header + 19) 0)
      (type_at header) type)

module _ {Fil Dir Volume : Type 0} (env : Env Fil Dir Volume) where
  -- The loop over the chunks.
  unfoldable pub chunk_loop : ℕ → ℕ → ℕ → ℕ → Fresult → Fil → World Fil Volume → Chunks Fil Volume
  chunk_loop zero base size done fr f w = record { done = done; fr = fr; fil = f; world = w }
  chunk_loop (suc fuel) base size done fr f w =
      let chunk = chunk_of size done in
      let m = env.fs.f_read (base + done) chunk w.mem f w.volume in
      let w' = record w { mem = m.mem; volume = m.volume } in
      elim (ltb done size) [
        | false ↦ record { done = done; fr = fr; fil = f; world = w }
        | true ↦ elim (is_ok m.result && (m.count == chunk)) [
          | false ↦ record { done = done; fr = m.result; fil = m.fil; world = w' }
          | true ↦ chunk_loop fuel base size (done + chunk) m.result m.fil (sendchar b'X' w')
        ]
      ]

  -- `f_close(&f)`
  unfoldable pub close_file : Fil → World Fil Volume → World Fil Volume
  close_file f w = record w { volume = (env.fs.f_close f w.volume).volume }

  -- What follows the loop. The name is copied once the file is read.
  unfoldable pub chunks_done : ℕ → ℕ → ℕ → Chunks Fil Volume → Bool × World Fil Volume
  chunks_done fname size type c =
      let w = sendstring (b'\n' ∷ []) (close_file c.fil c.world) in
      if not (c.done == size) then (false, send_fr (codes "read") c.fr w) else (
        true,
        sendstring (codes "Loaded " ++ (itoa (to_int size) ++ codes " bytes\n"))
            (record w { mem = set_header env.file_header fname type size w.mem }),
      )

  unfoldable pub load_opened :
      ℕ → ℕ → ℕ → ℕ → Fresult → Fil → World Fil Volume → Bool × World Fil Volume
  load_opened fname base max type fr f w =
      let size = env.fs.f_size f % 2 ^ 32 in
      if ltb max size
      then (false, close_file f (sendstring (codes "File too big\n") w))
      else chunks_done fname size type (chunk_loop chunk_fuel base size 0 fr f w)

  -- The card is mounted.
  unfoldable pub load_mounted : ℕ → ℕ → ℕ → ℕ → World Fil Volume → Bool × World Fil Volume
  load_mounted fname base max type w =
      let d = env.fs.f_open fname fa_read w.mem env.any_fil w.volume in
      let w' = record w { volume = d.volume } in
      if is_ok d.result
      then load_opened fname base max type d.result d.fil w'
      else (false, send_fr (codes "open") d.result w')

  -- `sd_load`: whether it answers 0.
  unfoldable pub sd_load : ℕ → ℕ → ℕ → ℕ → World Fil Volume → Bool × World Fil Volume
  sd_load fname base max type w =
      let (ready, w') = sd_ready w in
      if ready then load_mounted fname base max type w' else (false, w')

  -- `after_load` where `sd_load` has answered 0.
  unfoldable pub if_loaded : Bool × World Fil Volume → List ℕ → Next (World Fil Volume)
  if_loaded (true, w) argv = after_load env argv w
  if_loaded (false, w) argv = resume w

  unfoldable pub run_cmd : ℕ → List ℕ → World Fil Volume → Next (World Fil Volume)
  run_cmd fname argv w = if_loaded (sd_load fname prog_base prog_max 0 w) argv

  unfoldable pub load_cmd : ℕ → World Fil Volume → Next (World Fil Volume)
  load_cmd fname w = if_loaded (sd_load fname data_base data_max 1 w) []
