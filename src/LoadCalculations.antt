-- ===== src/LoadCalculations.antt =====
-- src/load_calculations.cpp: the load on the flange, from that of the end effector and the payload.
-- The arithmetic of 3 x 3 matrices is that of the library Eigen, a parameter. A matrix is the array of
-- its nine elements in the order of storage.
use libfranka.Prelude.{Array, nil, ◌▸◌, filled, zip_with, Double, nought, if◌then◌else◌}

pub record Eigen (F : Type 0) : Type 0 where
  -- `m << a, b, c, ...` lists the elements by rows.
  pub by_rows : Array F 9 → Array F 9
  pub mat_mul : Array F 9 → Array F 9 → Array F 9
  pub mat_add : Array F 9 → Array F 9 → Array F 9
  pub mat_sub : Array F 9 → Array F 9 → Array F 9
  pub mat_scale : F → Array F 9 → Array F 9

module _ {F : Type 0} ⦃d : Double F⦄ where
  pub combine_center_of_mass : F → Array F 3 → F → Array F 3 → Array F 3
  combine_center_of_mass m_ee f_x_cee m_load f_x_cload =
      if d.lt nought (d.add m_ee m_load)
      then zip_with
          (λ ee load. d.div (d.add (d.mul m_ee ee) (d.mul m_load load)) (d.add m_ee m_load)) f_x_cee
          f_x_cload
      else filled nought 3

  module _ ⦃e : Eigen F⦄ where
    pub skew_symmetric_matrix_from_vector : Array F 3 → Array F 9
    skew_symmetric_matrix_from_vector (x ▸ y ▸ z ▸ nil) =
        e.by_rows (nought ▸ d.neg z ▸ y ▸ z ▸ nought ▸ d.neg x ▸ d.neg y ▸ x ▸ nought ▸ nil)

    -- `m * (skew(c) * skew(c))`
    shift : F → Array F 3 → Array F 9
    shift m c =
        e.mat_scale m
          (e.mat_mul (skew_symmetric_matrix_from_vector c) (skew_symmetric_matrix_from_vector c))

    pub combine_inertia_tensor :
        F → Array F 3 → Array F 9 → F → Array F 3 → Array F 9 → F → Array F 3 → Array F 9
    unfolding shift
    combine_inertia_tensor m_ee f_x_cee i_ee m_load f_x_cload i_load m_total f_x_ctotal =
        if d.eq m_total nought
        then filled nought 9
        else e.mat_add
            (e.mat_add
              (e.mat_sub (if d.eq m_ee nought then filled nought 9 else i_ee) (shift m_ee f_x_cee))
              (e.mat_sub (if d.eq m_load nought then filled nought 9 else i_load)
                (shift m_load f_x_cload)))
            (shift m_total f_x_ctotal)
