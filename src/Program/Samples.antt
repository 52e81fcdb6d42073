-- ===== src/Program/Samples.antt =====
-- Sample programmes: one that is reserved by hand, and one that is being recorded.
use strata_pvr.Base.{true, false, [], ◌∷◌}
use strata_pvr.Program.{Program, missing}

abbrev pub news : Program
news = record {
  id = "a1";
  title = "ニュース[字]";
  full_title = "[新]ニュース🈑 7";
  detail = "";
  description = "";
  category = "news";
  genre = "";
  type = "GR";
  channel = missing;
  start = 1000;
  end = 61000;
  flags = "字" ∷ "字" ∷ [];
  is_reserved = true;
  is_manual_reserved = true;
  is_skip = false;
  is_conflict = false;
  is_recording = false;
  abort = false;
  abort_reason = "";
  pid = 0;
  recorded = "";
}

abbrev pub film : Program
film = record news {
  id = "b2";
  title = "映画";
  full_title = "";
  category = "cinema";
  start = 500;
  end = 9000;
  is_manual_reserved = false;
  is_recording = true;
}
