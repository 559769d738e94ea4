-- ===== src/Tests/Readers.antt =====
-- The object-file readers of tool/ on small files.
use xfl_clash.Prelude.{
  ℕ, some, [], ◌∷◌, ◌≡◌, refl, Text, codes, length, for_each, is_one_of, ◌==ₜ◌, ok, err, Result,
}
use xfl_clash.Prelude.Int.{pos}
use xfl_clash.Binary.{Bytes, unpack_from, byte_at, until, Fault}
use xfl_clash.Elf.{Elf, architecture_of, inspect_elf}
use xfl_clash.Macho.Error.{MachoError}
use xfl_clash.Elf.Notes.{read_notes}
use xfl_clash.Elf.Notes.Bounds.{Good}
use xfl_clash.Elf.Sound.{IsReport, inspect_elf-Good}
use xfl_clash.Elf.Error.{ElfError}
use xfl_clash.Macho.Image.{thin}
use xfl_clash.Macho.Image.Types.{Image}
use xfl_clash.Macho.Image.Sound.{IsImage, thin-Good}
use xfl_clash.Macho.Universal.{fat_magic, fat_entries, inspect_macho, Inventory}
use xfl_clash.Macho.Universal.Slices.{FatLayout, fat_entries-Good}
use xfl_clash.Macho.Universal.Images.{Inspected, inspect_macho-Good}
use xfl_clash.Macho.Archive.{archive_architectures, static_archive_architectures}
use xfl_clash.Macho.Archive.Members.{Architectures, static_archive_architectures-Good}
use xfl_clash.Macho.Image.Commands.Bounds.{Good as Good_macho}
use xfl_clash.Tests.Samples.{elf_file, image_file, universal_file, archive_file}

-- A stand-in for SHA-256 that only has the type.
abbrev digest : Bytes → Text
digest bytes = codes "digest"

abbrev build_id_of : Result (Fault ElfError) Elf → Text
build_id_of (ok e) = e.build_id
build_id_of (err e) = codes "error"

elf_build_id : build_id_of (inspect_elf digest elf_file) ≡ codes "aaaaaaaaaaaaaaaa"
unfolding inspect_elf byte_at ◌==ₜ◌ unpack_from architecture_of for_each until is_one_of read_notes
elf_build_id = refl

abbrev uuid_of : Result (Fault MachoError) Image → Text
uuid_of (ok i) = i.uuid
uuid_of (err e) = codes "error"

image_uuid : uuid_of (thin image_file 0 56) ≡ codes "00010203-0405-0607-0809-0a0b0c0d0e0f"
unfolding thin
image_uuid = refl

universal_entries :
    fat_entries universal_file
    ≡ ok (record { cpu_type = pos 0x0100000c; cpu_subtype = pos 0; offset = 32; size = 56 } ∷ [])
unfolding fat_entries
universal_entries = refl

abbrev count_of : Result (Fault MachoError) Inventory → ℕ
count_of (ok i) = length i.variants
count_of (err e) = 0

universal_images : count_of (inspect_macho universal_file) ≡ 1
unfolding inspect_macho
universal_images = refl

archive_objects : static_archive_architectures archive_file ≡ ok (some (codes "arm64" ∷ []))
unfolding static_archive_architectures archive_architectures fat_magic ◌==ₜ◌
archive_objects = refl

inspect_elf-Good_example : Good (IsReport digest elf_file) (inspect_elf digest elf_file)
inspect_elf-Good_example = inspect_elf-Good digest elf_file

thin-Good_example : Good_macho (IsImage image_file 0 56) (thin image_file 0 56)
thin-Good_example = thin-Good image_file 0 56

fat_entries-Good_example : Good_macho (FatLayout universal_file) (fat_entries universal_file)
fat_entries-Good_example = fat_entries-Good universal_file

inspect_macho-Good_example : Good_macho (Inspected universal_file) (inspect_macho universal_file)
inspect_macho-Good_example = inspect_macho-Good universal_file

static_archive_architectures-Good_example :
    Good_macho (Architectures archive_file) (static_archive_architectures archive_file)
static_archive_architectures-Good_example = static_archive_architectures-Good archive_file
