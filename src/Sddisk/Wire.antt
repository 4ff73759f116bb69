-- ===== src/Sddisk/Wire.antt =====
-- bootbin/sddisk.c: the state of the driver and the transfer of a byte. A transfer sends a byte and
-- receives one. The card is a function of all the bytes sent so far, newest first: any behaviour
-- over time is one. The waits for the SPI unit to be idle are taken to end.
use criscv_hw.Prelude.{ℕ, ◌%◌, ◌^◌, Bool, List, ◌∷◌, ◌++◌, Memory, reverse}

abbrev pub Card : Type 0
Card = List ℕ → ℕ

pub record Sd : Type 0 where
  pub wire : List ℕ
  pub sd_hc : Bool
  pub mem : Memory
  pub console : List ℕ

-- What a function returns, and the state after it.
abbrev pub Cmd : Type 0 → Type 0
Cmd A = Sd → A × Sd

module _ {A B : Type 0} where
  abbrev pub and_then : A × Sd → (A → Cmd B) → B × Sd
  and_then r k = k r.0 r.1

  infixl 5 ◌>>=◌ ◌>>◌
  abbrev pub ◌>>=◌ : Cmd A → (A → Cmd B) → Cmd B
  m >>= k = λ s. and_then (m s) k

  abbrev pub ◌>>◌ : Cmd A → Cmd B → Cmd B
  m >> n = m >>= λ _. n

abbrev pub pure : {A : Type 0} → A → Cmd A
pure a = λ s. (a, s)

-- SPI_TX = out; return SPI_RX;
unfoldable pub spi_xfer : Card → ℕ → Cmd ℕ
spi_xfer card out s = (card (out ∷ s.wire) % 2 ^ 8, record s { wire = out ∷ s.wire })

-- Both are still to be written, and do nothing.
abbrev pub spi_cs : ℕ → Sd → Sd
spi_cs active s = s

abbrev pub spi_set_speed : ℕ → Sd → Sd
spi_set_speed fast s = s

-- Text for the console, whose newest byte stands first.
unfoldable pub print : List ℕ → Cmd (Unit {0})
print text s = (tt, record s { console = reverse text ++ s.console })
