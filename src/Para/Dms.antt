-- ===== src/Para/Dms.antt =====
-- `DmsParaSetting` of prot.h, and the table and the defaults of para.cpp for it.
use sanbao_prot.Base.{ℕ, List, [], ◌∷◌}
use sanbao_prot.Field.{Field, byte, word, Rule}

-- sizeof
abbrev pub size : ℕ
size = 43

abbrev pub warning_speed_val : Field
warning_speed_val = byte 0

abbrev pub warning_volume : Field
warning_volume = byte 1

abbrev pub auto_photo_mode : Field
auto_photo_mode = byte 2

abbrev pub auto_photo_time_period : Field
auto_photo_time_period = word 3

abbrev pub auto_photo_distance_period : Field
auto_photo_distance_period = word 5

abbrev pub photo_num : Field
photo_num = byte 7

abbrev pub photo_time_period : Field
photo_time_period = byte 8

abbrev pub image_resolution : Field
image_resolution = byte 9

abbrev pub video_resolution : Field
video_resolution = byte 10

abbrev pub smoke_time_interval_threshold : Field
smoke_time_interval_threshold = word 21

abbrev pub call_time_interval_threshold : Field
call_time_interval_threshold = word 23

abbrev pub fatigue_video_time : Field
fatigue_video_time = byte 25

abbrev pub fatigue_photo_num : Field
fatigue_photo_num = byte 26

abbrev pub fatigue_photo_interval : Field
fatigue_photo_interval = byte 27

abbrev pub fatigue_resv : Field
fatigue_resv = byte 28

abbrev pub calling_video_time : Field
calling_video_time = byte 29

abbrev pub calling_photo_num : Field
calling_photo_num = byte 30

abbrev pub calling_photo_interval : Field
calling_photo_interval = byte 31

abbrev pub smoking_video_time : Field
smoking_video_time = byte 32

abbrev pub smoking_photo_num : Field
smoking_photo_num = byte 33

abbrev pub smoking_photo_interval : Field
smoking_photo_interval = byte 34

abbrev pub distraction_video_time : Field
distraction_video_time = byte 35

abbrev pub distraction_photo_num : Field
distraction_photo_num = byte 36

abbrev pub distraction_photo_interval : Field
distraction_photo_interval = byte 37

abbrev pub abnormal_video_time : Field
abnormal_video_time = byte 38

abbrev pub abnormal_photo_num : Field
abnormal_photo_num = byte 39

abbrev pub abnormal_photo_interval : Field
abnormal_photo_interval = byte 40

-- The fields in the order of the structure, without the reserved arrays.
abbrev pub layout : List Field
layout =
    warning_speed_val ∷ warning_volume ∷ auto_photo_mode ∷ auto_photo_time_period
    ∷ auto_photo_distance_period ∷ photo_num ∷ photo_time_period ∷ image_resolution
    ∷ video_resolution ∷ smoke_time_interval_threshold ∷ call_time_interval_threshold
    ∷ fatigue_video_time ∷ fatigue_photo_num ∷ fatigue_photo_interval ∷ fatigue_resv
    ∷ calling_video_time ∷ calling_photo_num ∷ calling_photo_interval ∷ smoking_video_time
    ∷ smoking_photo_num ∷ smoking_photo_interval ∷ distraction_video_time ∷ distraction_photo_num
    ∷ distraction_photo_interval ∷ abnormal_video_time ∷ abnormal_photo_num
    ∷ abnormal_photo_interval ∷ []

abbrev rule : Field → ℕ → ℕ → ℕ → Rule
rule f lo hi fallback = record { field = f; lo = lo; hi = hi; fallback = fallback }

-- The checks of `dms_para_check`, in order. `< 0` never holds of an unsigned field.
abbrev pub rules : List Rule
rules =
    rule warning_speed_val 0 60 30
    ∷ rule warning_volume 0 8 6
    ∷ rule auto_photo_mode 0 3 0
    ∷ rule auto_photo_time_period 0 3600 1800
    ∷ rule auto_photo_distance_period 0 60000 100
    ∷ rule photo_num 1 10 3
    ∷ rule photo_time_period 1 5 2
    ∷ rule image_resolution 1 6 1
    ∷ rule video_resolution 1 7 1
    ∷ rule smoke_time_interval_threshold 0 3600 180
    ∷ rule call_time_interval_threshold 0 3600 120
    ∷ rule fatigue_video_time 0 60 5
    ∷ rule fatigue_photo_num 0 10 3
    ∷ rule fatigue_photo_interval 1 5 2
    ∷ rule calling_video_time 0 60 5
    ∷ rule calling_photo_num 0 10 3
    ∷ rule calling_photo_interval 1 5 2
    ∷ rule smoking_video_time 0 60 5
    ∷ rule smoking_photo_num 0 10 3
    ∷ rule smoking_photo_interval 1 5 2
    ∷ rule distraction_video_time 0 60 5
    ∷ rule distraction_photo_num 0 10 3
    ∷ rule distraction_photo_interval 1 5 2
    ∷ rule abnormal_video_time 0 60 5
    ∷ rule abnormal_photo_num 0 10 3
    ∷ rule abnormal_photo_interval 1 5 2
    ∷ []

-- The assignments of `set_DmsParaSetting_default`, in order; the reserved bytes are set to 0.
abbrev pub defaults : List (Field × ℕ)
defaults =
    (warning_speed_val, 30)
    ∷ (warning_volume, 6)
    ∷ (auto_photo_mode, 0)
    ∷ (auto_photo_time_period, 1800)
    ∷ (auto_photo_distance_period, 100)
    ∷ (photo_num, 3)
    ∷ (photo_time_period, 2)
    ∷ (image_resolution, 1)
    ∷ (video_resolution, 1)
    ∷ (smoke_time_interval_threshold, 180)
    ∷ (call_time_interval_threshold, 120)
    ∷ (fatigue_video_time, 5)
    ∷ (fatigue_photo_num, 3)
    ∷ (fatigue_photo_interval, 2)
    ∷ (fatigue_resv, 0)
    ∷ (calling_video_time, 5)
    ∷ (calling_photo_num, 3)
    ∷ (calling_photo_interval, 2)
    ∷ (smoking_video_time, 5)
    ∷ (smoking_photo_num, 3)
    ∷ (smoking_photo_interval, 2)
    ∷ (distraction_video_time, 5)
    ∷ (distraction_photo_num, 3)
    ∷ (distraction_photo_interval, 2)
    ∷ (abnormal_video_time, 5)
    ∷ (abnormal_photo_num, 3)
    ∷ (abnormal_photo_interval, 2)
    ∷ []
