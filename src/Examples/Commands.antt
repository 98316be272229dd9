-- ===== src/Examples/Commands.antt =====
-- Commands and the table.
use lbm_rtp_proxy.Base.{ℕ, ◌≡◌, refl, List, [], ◌∷◌}
use lbm_rtp_proxy.Command.Formats.{sscanf, add_format}
use lbm_rtp_proxy.Command.Laws.Routes.{add_list}
use lbm_rtp_proxy.Examples.Machine.{little_endian, decimal_scanner}
use lbm_rtp_proxy.Net.Address.{Ip}

-- " 5004 10.0.0.5:4000 10.0.0.7:4000 198.51.100.9:6000"
abbrev pub parameters : List ℕ
parameters =
    b' ' ∷ b'5' ∷ b'0' ∷ b'0' ∷ b'4' ∷ b' ' ∷ b'1' ∷ b'0' ∷ b'.' ∷ b'0' ∷ b'.' ∷ b'0' ∷ b'.' ∷ b'5'
    ∷ b':' ∷ b'4' ∷ b'0' ∷ b'0' ∷ b'0' ∷ b' ' ∷ b'1' ∷ b'0' ∷ b'.' ∷ b'0' ∷ b'.' ∷ b'0' ∷ b'.'
    ∷ b'7' ∷ b':' ∷ b'4' ∷ b'0' ∷ b'0' ∷ b'0' ∷ b' ' ∷ b'1' ∷ b'9' ∷ b'8' ∷ b'.' ∷ b'5' ∷ b'1'
    ∷ b'.' ∷ b'1' ∷ b'0' ∷ b'0' ∷ b'.' ∷ b'9' ∷ b':' ∷ b'6' ∷ b'0' ∷ b'0' ∷ b'0' ∷ []

abbrev pub sender_ip : Ip
sender_ip = record { a = 10; b = 0; c = 0; d = 5 }

abbrev pub receiver_ip : Ip
receiver_ip = record { a = 10; b = 0; c = 0; d = 7 }

abbrev pub sbc_ip : Ip
sbc_ip = record { a = 198; b = 51; c = 100; d = 9 }

pub scanned :
    sscanf add_format parameters ≡ add_list 5004 sender_ip 4000 receiver_ip 4000 sbc_ip 6000
scanned = refl
