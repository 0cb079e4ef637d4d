-- ===== src/Witnesses/Options.antt =====
-- The theorems about the passes of the mining loop from a command line at concrete inputs.
use osprey_blake2b.Base.{
  ℕ, ◌≡◌, refl, true, false, List, [], ◌∷◌, Option, none, some, set, u8, bit_and, shr,
}
use osprey_blake2b.Base.Text.{codes}
use osprey_blake2b.WorkItem.{KnotsHeader}
use osprey_blake2b.WorkItem.Target.{target_top64_from_bits}
use osprey_blake2b.WorkItem.Layout.{IsHeader, IsMode0, stages_of, stage_inputs_mode0}
use osprey_blake2b.Base.Bytes.{store_le}
use osprey_blake2b.Worksrc.{WorkCtx, same_name, worksrc_pack_item}
use osprey_blake2b.PoolSource.{knots}
use osprey_blake2b.Mining.{
  Source, Line, Loop, find_frame, pass, wants_work, push_work, sync_and_drain, drain, loop_start,
}
use osprey_blake2b.Gbt.{synthetic_template, synthetic_prev, gbt_build}
use osprey_blake2b.Rpc.{skip_space, isspace, decimal}
use osprey_blake2b.Rpc.Reply.{template_request}
use osprey_blake2b.Solo.{
  worksrc_synthetic, synthetic_get_work, rpc_call, worksrc_gbt, Solo, get_template, gbt_get_work,
}
use osprey_blake2b.FrameSync.{frame_sync, gather, lock}
use osprey_blake2b.Mining.Reached.{passes}
use osprey_blake2b.Options.{
  parse_args, default_config, with_value, alone, option_of, one_alone, atoi,
}
use osprey_blake2b.Options.Offline
use osprey_blake2b.Options.Offline.{OnlyRequests}
use osprey_blake2b.Witnesses.Solo.{solo}

abbrev no_env : List ℕ → Option (List ℕ)
no_env name = none

-- A node that does not answer, and a line with no bytes.
abbrev unanswered : Solo
unanswered = record solo { replies = [] }

abbrev silent_line : Line
silent_line = record { written = true; polls = []; skip_polls = []; read_polls = []; arriving = [] }

abbrev asked : Solo
asked = record unanswered { sent = template_request ∷ [] }

abbrev node : Source
node = worksrc_gbt none true 30

passes-parse_args_example : OnlyRequests (template_request ∷ [])
unfolding parse_args default_config with_value alone option_of one_alone same_name atoi skip_space
    isspace decimal pass wants_work push_work sync_and_drain drain loop_start gbt_get_work
    get_template rpc_call gbt_build
passes-parse_args_example =
    Offline.passes-parse_args no_env knots (codes "--target-shift" ∷ codes "30" ∷ [])
      (record (default_config knots) { target_shift = 30 }) 0 unanswered ((5, silent_line) ∷ [])
      (record (loop_start node unanswered) { source = asked; last_template = 5 }) (refl, (refl, tt))
      refl refl refl

abbrev synthetic_header : KnotsHeader
unfolding synthetic_template
synthetic_header = record (synthetic_template 5 5) {
  m_extranonce =
      set (set (synthetic_template 5 5).m_extranonce 0 (u8 (bit_and 5 0xff))) 1
        (u8 (bit_and (shr 5 8) 0xff));
}

synthetic_header-IsHeader : IsHeader synthetic_header
unfolding synthetic_header synthetic_template synthetic_prev store_le
synthetic_header-IsHeader = record {
  prev_size = refl;
  root_size = refl;
  extranonce_size = refl;
  key_size = refl;
  rhs_size = refl;
}

synthetic_header-IsMode0 : IsMode0 synthetic_header
unfolding synthetic_header synthetic_template
synthetic_header-IsMode0 = refl

abbrev synthetic_ctx : WorkCtx
synthetic_ctx = record {
  ss3 = (stages_of synthetic_header).ss3;
  ss4 = (stages_of synthetic_header).ss4;
  target_top64 = target_top64_from_bits 0x1903c2d4 30;
  valid = true;
}

synthetic_built :
    gbt_build (some (synthetic_template 5 5)) 5 30 ≡ some (synthetic_header, synthetic_ctx)
unfolding gbt_build synthetic_header synthetic_template
synthetic_built =
    simp
      (
        stage_inputs_mode0 synthetic_header synthetic_header-IsHeader synthetic_header-IsMode0,
        gbt_build,
      )
      refl

abbrev no_template : Solo
no_template = record unanswered { tpl = record solo.tpl { valid = false } }

abbrev local : Source
local = worksrc_synthetic false 30

abbrev pushed : Loop local
unfolding synthetic_header
pushed = record (loop_start local no_template) {
  source = record no_template { gbt_hdr = synthetic_header; last_template_height = 969912 };
  ctx = synthetic_ctx;
  items_sent = 1;
  have_work = true;
  last_template = 5;
  sync = record { sync_gap = 0; sync_quiet = 0; sync_failed = 1; sync_locked = 0 };
}

got : synthetic_get_work 30 no_template 5 ≡ (
  record no_template { gbt_hdr = synthetic_header; last_template_height = 969912 },
  some synthetic_ctx,
)
unfolding synthetic_get_work
got = simp (synthetic_built, synthetic_get_work) refl

abbrev sent_work : Loop local
sent_work = record pushed {
  sync = record { sync_gap = 0; sync_quiet = 0; sync_failed = 0; sync_locked = 0 };
}

push_work_of : push_work local (loop_start local no_template) 5 true ≡ (sent_work, true)
unfolding push_work loop_start pushed worksrc_pack_item
push_work_of = simp (got, push_work) refl

pushed_from_start :
    passes local 0 (loop_start local no_template) ((5, silent_line) ∷ []) ≡ some pushed
unfolding pass wants_work sync_and_drain find_frame frame_sync gather lock drain pushed loop_start
pushed_from_start = simp (push_work_of, pass) refl

passes-worksrc_synthetic_example : ◌≡◌ {A = List (List ℕ)} pushed.source.sent []
passes-worksrc_synthetic_example =
    Offline.passes-worksrc_synthetic false 30 0 no_template ((5, silent_line) ∷ []) pushed refl refl
      pushed_from_start
