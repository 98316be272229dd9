-- ===== src/Command/Formats.antt =====
-- The formats of src/module.h and of the `sscanf` calls of src/command.c, as lists of directives,
-- and the kernel's `sscanf`.
use lbm_rtp_proxy.Base.{ℕ, ◌^◌, ◌<◌, List, [], ◌∷◌, ◌++◌}

-- White space, a character that stands for itself, `%hhu` and `%hu`.
pub data Directive : Type 0 where
  space : Directive
  literal : ℕ → Directive
  hhu hu : Directive

-- The values are those of the first conversions of the format, each in the range of its type.
abbrev pub Fits : List Directive → List ℕ → Type 0
Fits fmt [] = Unit
Fits [] (v ∷ vs) = ⊥
Fits (space ∷ fmt) (v ∷ vs) = Fits fmt (v ∷ vs)
Fits (literal c ∷ fmt) (v ∷ vs) = Fits fmt (v ∷ vs)
Fits (hhu ∷ fmt) (v ∷ vs) = (v < 2 ^ 8) × Fits fmt vs
Fits (hu ∷ fmt) (v ∷ vs) = (v < 2 ^ 16) × Fits fmt vs

-- `sscanf` returns how many values it stored: the length of the list. The text ends at its first NUL,
-- or at its end, whichever comes first, which is the business of `sscanf`.
pub record Scanner : Type 0 where
  pub sscanf : List Directive → List ℕ → List ℕ
  pub sscanf-Fits : (fmt : List Directive) (text : List ℕ) → Fits fmt (sscanf fmt text)

module _ ⦃s : Scanner⦄ where
  abbrev pub sscanf : List Directive → List ℕ → List ℕ
  sscanf = s.sscanf

abbrev pub ip_fmt : List Directive
ip_fmt = hhu ∷ literal b'.' ∷ hhu ∷ literal b'.' ∷ hhu ∷ literal b'.' ∷ hhu ∷ []

abbrev pub ip_port_fmt : List Directive
ip_port_fmt = ip_fmt ++ literal b':' ∷ hu ∷ []

abbrev pub add_format : List Directive
add_format =
    space
    ∷ hu
    ∷ space
    ∷ (ip_port_fmt ++ (space ∷ (ip_port_fmt ++ (space ∷ (ip_port_fmt ++ (space ∷ []))))))

abbrev pub port_format : List Directive
port_format = space ∷ hu ∷ space ∷ []

abbrev pub two_ips_format : List Directive
two_ips_format = space ∷ (ip_fmt ++ (space ∷ (ip_fmt ++ (space ∷ []))))

abbrev pub u8_format : List Directive
u8_format = space ∷ hhu ∷ space ∷ []

abbrev pub space_format : List Directive
space_format = space ∷ []
