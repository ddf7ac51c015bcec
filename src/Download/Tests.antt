-- ===== src/Download/Tests.antt =====
-- A download and an extraction.
use auto_pxe.Prelude.{◌≡◌, refl, true, false, some, [], ◌∷◌, codes, text_beq, ne_of_text_beq}
use auto_pxe.Config.Tests.{loaded}
use auto_pxe.Download.{
  uncreated, broken, copied, Entry, answered, Environment, wanted, ensure_artifacts, file_exists,
  tarball_path, clean_path,
}
use auto_pxe.Download.Artifacts

clean_up : clean_path (codes "a/../../b//./c") ≡ codes "../b/c"
unfolding clean_path
clean_up = refl

abbrev kernel : Entry
kernel = record {
  name = codes "./ipa-centos9-master.kernel";
  is_regular = true;
  content = codes "K";
  copying = copied;
}

abbrev initramfs : Entry
initramfs = record {
  name = codes "ipa-centos9-master.initramfs";
  is_regular = true;
  content = codes "I";
  copying = copied;
}

abbrev directory : Entry
directory = record {
  name = codes "ipa-centos9-master.kernel";
  is_regular = false;
  content = [];
  copying = uncreated;
}

-- A web server that has the tarball, which holds a directory and the two files.
abbrev pub online : Environment
online = record {
  made_cache = true;
  made_kernel_dir = true;
  made_initramfs_dir = true;
  fetch = λ url. answered 200 (codes "T") copied;
  untar = λ content.
      some (record { entries = directory ∷ kernel ∷ initramfs ∷ []; is_complete = true });
}

downloads :
    (ensure_artifacts online loaded.ipa []).files
    ≡ (codes "/var/lib/autopxe/cache/ipa-centos9-master.tar.gz", codes "T")
      ∷ (codes "/srv/ipa.kernel", codes "K")
      ∷ (codes "/srv/ipa.initramfs", codes "I")
      ∷ []
unfolding ensure_artifacts
downloads = refl

-- The archive is cut off after the kernel, whose copying is broken off.
abbrev cut_off : Environment
cut_off = record online {
  untar = λ content. some (record {
    entries = record kernel { copying = broken (codes "") true } ∷ [];
    is_complete = false;
  });
}

not_extracted : file_exists loaded.ipa.kernel (ensure_artifacts cut_off loaded.ipa []).files ≡ false
unfolding ensure_artifacts
not_extracted = refl

pub loaded-IsOutside : Artifacts.IsOutside loaded.ipa
unfolding wanted tarball_path text_beq
loaded-IsOutside = record {
  apart = record {
    dests = ne_of_text_beq _ _ refl;
    kernel_part = ne_of_text_beq _ _ refl;
    initramfs_part = ne_of_text_beq _ _ refl;
  };
  kernel = (ne_of_text_beq _ _ refl, ne_of_text_beq _ _ refl);
  initramfs = (ne_of_text_beq _ _ refl, ne_of_text_beq _ _ refl);
}

ensure_artifacts-IsWhole_example :
    Artifacts.IsWhole cut_off loaded.ipa [] loaded-IsOutside
      (ensure_artifacts cut_off loaded.ipa [])
ensure_artifacts-IsWhole_example =
    Artifacts.ensure_artifacts-IsWhole cut_off loaded.ipa [] loaded-IsOutside

ensure_artifacts-IsPresent_example :
    Artifacts.IsPresent online loaded.ipa [] loaded-IsOutside
      (ensure_artifacts online loaded.ipa []).files
unfolding ensure_artifacts
ensure_artifacts-IsPresent_example =
    Artifacts.ensure_artifacts-IsPresent online loaded.ipa [] loaded-IsOutside refl
