-- ===== src/Examples/Data.antt =====
-- A storage service and a hash for the concrete runs.
use omni_blob.Base.{
  ℕ, ◌+◌, ◌%◌, ◌≡◌, refl, false, none, List, [], ◌∷◌, ◌++◌, arith, length, Text, codes, has_byte,
}
use omni_blob.FilePath.{slash}
use omni_blob.FileSystem.{FileSystem, Stream}
use omni_blob.Storage.{StorageService, Hash}
use omni_blob.Storage.Layout.{Calendar}
use omni_blob.Entity.{BinaryFile}

abbrev pub service : StorageService
service = record { root_path = codes "/srv"; legacy_path = []; sharding_type = codes "cas" }

total : List ℕ → ℕ
total [] = 0
total (c ∷ s) = c + total s

-- A stand-in for SHA-256: the last digit of the sum of the bytes, behind 63 zeros.
unfoldable pub digit_sum : List ℕ → Text
unfolding total
digit_sum bs =
    codes "000000000000000000000000000000000000000000000000000000000000000"
    ++ ((48 + total bs % 10) ∷ [])

pub digit_sum-length : (bs : List ℕ) → length (digit_sum bs) ≡ 64
unfolding digit_sum
digit_sum-length bs = refl

pub digit_sum-whole : (bs : List ℕ) → has_byte slash (digit_sum bs) ≡ false
unfolding digit_sum has_byte
digit_sum-whole bs = ground arith

abbrev pub hash : Hash
hash = record { sum = digit_sum; sum_length = digit_sum-length; sum_whole = digit_sum-whole }

abbrev pub calendar : Calendar
calendar = record { year = λ t. 2026; month = λ t. 7 }

abbrev pub no_disk : FileSystem
no_disk p = none

abbrev pub hello : Stream
hello = record { bytes = codes "hello"; breaks = false }

abbrev pub row : ℕ → BinaryFile
row n = record {
  bin_id = n;
  referensi_id = codes "LP001";
  module_name = codes "paspor";
  directory = [];
  file_name = codes "note.txt";
  path = codes "paspor/note.txt";
  size = 5;
  mime_type = codes "text/plain";
  checksum = digit_sum (codes "hello");
  flag = codes "1";
  create_date = 3;
  app_name = codes "police";
}
