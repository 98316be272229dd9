-- ===== src/Procfs/Operations.antt =====
-- The operations of the proc file (rtp_proxy_seq_ops and rtp_proxy_file_ops of src/procfs.c), and a read
-- of it through them. What the kernel does with them is a parameter: how a file is opened for a
-- sequence, and read, sought and released.
use lbm_rtp_proxy.Base.{
  ℕ, zero, suc, ◌+◌, Bool, Option, none, some, List, [], ◌∷◌, ◌++◌, length, map, take, drop, ◌≤◌,
  length-map, map-append, ◌≡◌, refl, ap, ◌∙◌,
}
use lbm_rtp_proxy.Command.{Globals}
use lbm_rtp_proxy.Command.Formats.{Scanner}
use lbm_rtp_proxy.Net.ByteOrder.{ByteOrder}
use lbm_rtp_proxy.Procfs.{
  Shown, rtp_proxy_seq_start, rtp_proxy_seq_next, rtp_proxy_seq_show, Written, rtp_proxy_write,
}
use lbm_rtp_proxy.Procfs.Session.{portion, session, whole, total, session-whole}

-- `struct seq_operations`. The iterator is its index, NULL is `none`.
pub record SeqOperations : Type 0 where
  pub start : (position : ℕ) → Globals → Option ℕ
  pub next : (index : ℕ) → Globals → Option ℕ
  pub stop : Globals → Globals
  pub show : (index : ℕ) → Globals → Shown

unfoldable pub rtp_proxy_seq_stop : Globals → Globals
rtp_proxy_seq_stop g = g

-- `sizeof(struct iter)`, one `int`.
abbrev pub iter_size : ℕ
iter_size = 4

-- What the kernel offers for files that are sequences.
pub record SeqFile {ℓ} (File : Type ℓ) : Type ℓ where
  pub seq_open_private : SeqOperations → (size : ℕ) → File
  pub seq_read : File → File
  pub seq_lseek : File → File
  pub seq_release_private : File → File

-- `struct proc_ops`
pub record ProcOps {ℓ} (File : Type ℓ) : Type ℓ where
  pub proc_open : File
  pub proc_write :
      (alloc copied : Bool) (user_buffer : List ℕ) (random_sn : ℕ) → Globals → Globals × Written
  pub proc_read : File → File
  pub proc_lseek : File → File
  pub proc_release : File → File

module _ ⦃o : ByteOrder⦄ where
  unfoldable pub rtp_proxy_seq_ops : SeqOperations
  unfolding rtp_proxy_seq_stop rtp_proxy_seq_start rtp_proxy_seq_next rtp_proxy_seq_show
  rtp_proxy_seq_ops = record {
    start = λ position g. rtp_proxy_seq_start position g.table;
    next = λ index g. rtp_proxy_seq_next index g.table;
    stop = rtp_proxy_seq_stop;
    show = rtp_proxy_seq_show;
  }

  unfoldable pub rtp_proxy_open {ℓ} : {File : Type ℓ} → SeqFile File → File
  unfolding rtp_proxy_seq_ops
  rtp_proxy_open file = file.seq_open_private rtp_proxy_seq_ops iter_size

  unfoldable pub rtp_proxy_file_ops {ℓ} :
      ⦃s : Scanner⦄ {File : Type ℓ} → SeqFile File → ProcOps File
  unfolding rtp_proxy_open rtp_proxy_write
  rtp_proxy_file_ops file = record {
    proc_open = rtp_proxy_open file;
    proc_write = rtp_proxy_write;
    proc_read = file.seq_read;
    proc_lseek = file.seq_lseek;
    proc_release = file.seq_release_private;
  }

-- The protocol of a sequence by its operations: a portion of at most so many elements, and portions
-- one after another, each begun by `start` at the position that the one before it reached, and ended
-- by `stop`.
abbrev pub read_portion : SeqOperations → ℕ → Option ℕ → Globals → List Shown
read_portion ops zero cur g = []
read_portion ops (suc n) none g = []
read_portion ops (suc n) (some i) g = ops.show i g ∷ read_portion ops n (ops.next i g) g

abbrev pub read_sequence : SeqOperations → List ℕ → ℕ → Globals → List Shown
read_sequence ops [] position g = []
read_sequence ops (n ∷ ns) position g =
    let shown = read_portion ops n (ops.start position g) g in
    shown ++ read_sequence ops ns (position + length shown) (ops.stop g)

module _ ⦃o : ByteOrder⦄ where
  read_portion-show :
      (n : ℕ) (cur : Option ℕ) (g : Globals)
      → read_portion rtp_proxy_seq_ops n cur g
        ≡ map (λ (i : ℕ). rtp_proxy_seq_show i g) (portion n cur g.table)
  unfolding rtp_proxy_seq_ops
  read_portion-show zero cur g = refl
  read_portion-show (suc n) none g = refl
  read_portion-show (suc n) (some i) g =
      ap (λ (r : List Shown). rtp_proxy_seq_show i g ∷ r)
        (read_portion-show n (rtp_proxy_seq_next i g.table) g)

  read_sequence-show :
      (sizes : List ℕ) (position : ℕ) (g : Globals)
      → read_sequence rtp_proxy_seq_ops sizes position g
        ≡ map (λ (i : ℕ). rtp_proxy_seq_show i g) (session sizes position g.table)
  unfolding rtp_proxy_seq_ops rtp_proxy_seq_stop
  read_sequence-show [] position g = refl
  read_sequence-show (n ∷ sizes) position g =
      let show = λ (i : ℕ). rtp_proxy_seq_show i g in
      let shown = portion n (rtp_proxy_seq_start position g.table) g.table in
      rw
        (
          read_portion-show n (rtp_proxy_seq_start position g.table) g,
          length-map show shown,
          map-append show shown (session sizes (position + length shown) g.table),
        )
        (ap (λ (r : List Shown). map show shown ++ r)
          (read_sequence-show sizes (position + length shown) g))

  -- What a user reads of the proc file, from its beginning on, in portions of which the first has `n`
  -- lines, at least one and no more than there are, and the others any sizes: the lines of the
  -- configuration and of the routes in order, of which the one right after the first portion is
  -- missing. The configuration and the table stay while they are read.
  pub read_sequence-whole :
      (n : ℕ) (sizes : List ℕ) (g : Globals)
      → 1 ≤ n
      → n ≤ length (whole g.table)
      → read_sequence rtp_proxy_seq_ops (n ∷ sizes) 0 g
        ≡ map
            (λ (i : ℕ). rtp_proxy_seq_show i g)
            (take n (whole g.table) ++ take (total sizes) (drop (n + 1) (whole g.table)))
  read_sequence-whole n sizes g first enough =
      read_sequence-show (n ∷ sizes) 0 g
      ∙ ap (map (λ (i : ℕ). rtp_proxy_seq_show i g)) (session-whole n sizes g.table first enough)
