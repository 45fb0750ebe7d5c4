-- ===== src/Viewer.antt =====
-- The program that looks at the arm's pictures: main of Windows/RobotController/StreamTest.cpp with
-- Windows/XNlib/include/xn_homo.hpp. OpenCV's matrices and dlib's faces are parameters; what is drawn
-- and the windows are left out.
pub mod Homo
pub mod Watch
pub mod Plane
pub mod Points
pub mod Sent
pub mod Served
mod Examples
use robot_arm.Base.{ℕ, List, ℤ}
use robot_arm.Floats.{Floats}

module _ (fl : Floats) where
  open fl use {Double}

  -- `cv::Mat` of doubles: an element, `M / d`, a column, the cross product, a matrix of three columns,
  -- `SVDecomp`'s W, U and Vt, products, the inverse, `d * M`, a difference, a sum, a 3 x 1 matrix, and
  -- `M.at<double>(i) += d`.
  pub record Mats : Type 1 where
    pub Mat : Type 0
    pub at : Mat → ℕ → ℕ → Double
    pub div_m : Mat → Double → Mat
    pub col : Mat → ℕ → Mat
    pub cross_m : Mat → Mat → Mat
    pub columns : Mat → Mat → Mat → Mat
    pub sv_decomp : Mat → Mat × Mat × Mat
    pub mul_m : Mat → Mat → Mat
    pub inv : Mat → Mat
    pub scale_m : Double → Mat → Mat
    pub sub_m : Mat → Mat → Mat
    pub add_m : Mat → Mat → Mat
    pub column : Double → Double → Double → Mat
    pub add_at : Mat → ℕ → Double → Mat

  -- `cv::Point3d` and `cv::Point2d`
  pub record Point3d : Type 0 where
    pub x : Double
    pub y : Double
    pub z : Double

  pub record Point2d : Type 0 where
    pub x : Double
    pub y : Double
