-- ===== src/Pxe.antt =====
-- internal/pxe/pxe.go. A request gives what the packet library's accessors return.
use auto_pxe.Prelude.{
  ℕ, Bool, ◌||◌, Option, none, some, List, [], ◌∷◌, Text, codes, text_beq, any, contains,
}
use auto_pxe.Net.Ip.{Ip}

pub data Arch : Type 0 where
  unknown bios_x86 uefi_x64 uefi_arm64 : Arch

-- The values of `iana.Arch` that the program names, and the others.
pub data IanaArch : Type 0 where
  intel_x86pc efi_ia32 efi_bc efi_x86_64 efi_arm64 : IanaArch
  other_arch : ℕ → IanaArch

-- The message types of the option 53.
pub data MessageType : Type 0 where
  discover offer request decline ack nak release inform : MessageType
  other_type : ℕ → MessageType

-- The fields of `dhcpv4.DHCPv4` and the results of its accessors that the program reads: the entries
-- of the option 93, the user classes and the vendor class.
pub record Request : Type 0 where
  pub message_type : MessageType
  pub client_hw_addr : List ℕ
  pub client_arch : List IanaArch
  pub user_class : List Text
  pub class_identifier : Text
  pub requested_ip : Ip
  pub client_ip : Ip

-- `Arch.String`
unfoldable pub arch_string : Arch → Text
arch_string bios_x86 = codes "bios-x86"
arch_string uefi_x64 = codes "uefi-x86_64"
arch_string uefi_arm64 = codes "uefi-arm64"
arch_string unknown = codes "unknown"

unfoldable pub arch_of : IanaArch → Arch
arch_of intel_x86pc = bios_x86
arch_of efi_ia32 = unknown
arch_of efi_bc = uefi_x64
arch_of efi_x86_64 = uefi_x64
arch_of efi_arm64 = uefi_arm64
arch_of (other_arch c) = unknown

-- `DetectArch`: the first entry wins.
unfoldable pub detect_arch : List IanaArch → Arch
unfolding arch_of
detect_arch [] = unknown
detect_arch (c ∷ cs) = arch_of c

-- `IsIPXE`
unfoldable pub is_ipxe : Request → Bool
unfolding any contains text_beq
is_ipxe req =
    any (λ c. text_beq c (codes "iPXE")) req.user_class
    || contains (codes "iPXE") req.class_identifier

-- `FirmwareBootfile`
unfoldable pub firmware_bootfile : Arch → Option Text
firmware_bootfile bios_x86 = some (codes "undionly.kpxe")
firmware_bootfile uefi_x64 = some (codes "snponly.efi")
firmware_bootfile uefi_arm64 = none
firmware_bootfile unknown = none
